-- ===== src/Errgroup/Errors.antt =====
-- Which error a group keeps, and what `Go` does under a context that is done.
use mcpcheck.Prelude.{
  ◌≤◌, ◌≡◌, ◌≢◌, refl, sym, ap, subst, ◌∙◌, Bool, true, false, Option, none, some, ltb, arith,
}
use mcpcheck.Limiter.{
  Semaphore, Caller, ready, committed, asleep, acquired, over_capacity, cancelled, acquire_n, enter,
  look, try_acquire, release,
}
use mcpcheck.Errgroup.{
  Group, or_else, record_first, record_err, spawn, admit_caller, go_with, go, resume_with, resume,
  try_admitted, try_with, try_go, released, release_with, record_result, finish, cancel,
}
use mcpcheck.Errgroup.Concurrency.{Step, goes, resumes, tries, ends, cancels, Reach, here, next}

-- The error that was kept stays, and one that is kept has ended the context.
pub record Keeps {E : Type 0} (g h : Group E) : Type 0 where
  pub error : (e : E) → g.error ≡ some e → h.error ≡ some e
  pub cause : (e : E) → g.cause ≡ some e → h.cause ≡ some e
  pub ended : (g.error ≢ none → g.cause ≢ none) → h.error ≢ none → h.cause ≢ none

module _ {E : Type 0} where
  unchanged : (g h : Group E) → h.error ≡ g.error → h.cause ≡ g.cause → Keeps g h
  unchanged g h p q = record {
    error = λ e k. p ∙ k;
    cause = λ e k. q ∙ k;
    ended = λ v n k. v (λ z. n (p ∙ z)) (sym q ∙ k);
  }

  in_turn : (g h k : Group E) → Keeps g h → Keeps h k → Keeps g k
  in_turn g h k a b = record {
    error = λ e q. b.error e (a.error e q);
    cause = λ e q. b.cause e (a.cause e q);
    ended = λ v. b.ended (a.ended v);
  }

  or_else-keeps : (o : Option E) (d e : E) → o ≡ some e → or_else o d ≡ some e
  or_else-keeps none d e h = absurd (cc)
  or_else-keeps (some c) d e h = h

  or_else-some : (o : Option E) (d : E) → or_else o d ≢ none
  or_else-some none d h = cc
  or_else-some (some c) d h = cc

  record_first-Keeps :
      (d : E) (o : Option E) (g : Group E) → g.error ≡ o → Keeps g (record_first d o g)
  record_first-Keeps d none g p = record {
    error = λ e k. absurd (cc (p, k));
    cause = λ e k. or_else-keeps g.cause d e k;
    ended = λ v n. or_else-some g.cause d;
  }
  record_first-Keeps d (some c) g p = unchanged g g refl refl

  record_err-Keeps : (d : E) (g : Group E) → Keeps g (record_err d g)
  unfolding record_err
  record_err-Keeps d g = record_first-Keeps d g.error g refl

  cancel-Keeps : (d : E) (g : Group E) → Keeps g (cancel d g)
  cancel-Keeps d g = record {
    error = λ e k. k;
    cause = λ e k. or_else-keeps g.cause d e k;
    ended = λ v n. or_else-some g.cause d;
  }

  try_admitted-Keeps : (t : Semaphore) (b : Bool) (g : Group E) → Keeps g (try_admitted g (t, b)).0
  try_admitted-Keeps t true g = unchanged g _ refl refl
  try_admitted-Keeps t false g = unchanged g _ refl refl

  try_with-Keeps : (o : Option Semaphore) (g : Group E) → Keeps g (try_with o g).0
  try_with-Keeps none g = unchanged g _ refl refl
  try_with-Keeps (some s) g = try_admitted-Keeps (try_acquire s).0 (try_acquire s).1 g

  record_result-Keeps : (result : Option E) (g : Group E) → Keeps g (record_result result g)
  record_result-Keeps none g = unchanged g g refl refl
  record_result-Keeps (some d) g = record_err-Keeps d g

  released-Keeps : (o : Option Semaphore) (g h : Group E) → released g o ≡ some h → Keeps g h
  released-Keeps none g h q = absurd (cc)
  released-Keeps (some s) g h q = unchanged g h (ground (arith, q)) (ground (arith, q))

  release_with-Keeps :
      (o : Option Semaphore) (g h : Group E) → release_with o g ≡ some h → Keeps g h
  release_with-Keeps none g h q = unchanged g h (ground (arith, q)) (ground (arith, q))
  release_with-Keeps (some s) g h q = released-Keeps (release s) g h q

enter-cancelled :
    {E : Type 0} (ctx : Option E) (e : E) (s : Semaphore)
    → ctx ≡ some e
    → 1 ≤ s.capacity
    → enter ctx 1 s ≡ cancelled e
unfolding enter
enter-cancelled ctx e s h c = let l : ltb s.capacity 1 ≡ false = ground arith in rw (l, h) refl

acquire_n-cancelled :
    {E : Type 0} (ctx : Option E) (e : E) (s : Semaphore)
    → ctx ≡ some e
    → 1 ≤ s.capacity
    → acquire_n ctx 1 s ≡ (s, cancelled e)
unfolding acquire_n
acquire_n-cancelled {E} ctx e s h c =
    ap
      (λ (k : Caller E).
        let r : Semaphore × Caller E = elim k [
          | ready waited ↦ look ctx 1 waited s
          | done ↦ (s, done)
        ] in
        r)
      (enter-cancelled ctx e s h c)

module _ {E : Type 0} (wrap : E → E) (too_many : E) where
  admit_caller-Keeps :
      (t : Semaphore) (c : Caller E) (g h : Group E) (b : Bool)
      → admit_caller wrap too_many g t c ≡ some (h, b)
      → Keeps g h
  admit_caller-Keeps t acquired g h b q = unchanged g h (ground (arith, q)) (ground (arith, q))
  admit_caller-Keeps t over_capacity g h b q =
      let p : record_err (wrap too_many) g ≡ h = ground (arith, q) in
      subst (Keeps g) p (record_err-Keeps (wrap too_many) g)
  admit_caller-Keeps t (cancelled e) g h b q =
      let p : record_err (wrap e) g ≡ h = ground (arith, q) in
      subst (Keeps g) p (record_err-Keeps (wrap e) g)
  admit_caller-Keeps t (ready waited) g h b q = absurd (cc)
  admit_caller-Keeps t committed g h b q = absurd (cc)
  admit_caller-Keeps t asleep g h b q = absurd (cc)

  go_with-Keeps :
      (o : Option Semaphore) (g h : Group E) (b : Bool)
      → go_with wrap too_many o g ≡ some (h, b)
      → Keeps g h
  go_with-Keeps none g h b q = unchanged g h (ground (arith, q)) (ground (arith, q))
  go_with-Keeps (some s) g h b q = admit_caller-Keeps _ _ g h b q

  resume_with-Keeps :
      (o : Option Semaphore) (g h : Group E) (b : Bool)
      → resume_with wrap too_many o g ≡ some (h, b)
      → Keeps g h
  resume_with-Keeps none g h b q = absurd (cc)
  resume_with-Keeps (some s) g h b q = admit_caller-Keeps _ _ g h b q

  Step-Keeps : {g h : Group E} → Step wrap too_many g h → Keeps g h
  unfolding go resume try_go finish
  Step-Keeps {g} {h} (goes b q) = go_with-Keeps g.limiter g h b q
  Step-Keeps {g} {h} (resumes b q) = resume_with-Keeps g.limiter g h b q
  Step-Keeps {g} tries = try_with-Keeps g.limiter g
  Step-Keeps {g} {h} (ends result r q) =
      in_turn g (record_result result g) h (record_result-Keeps result g)
        (release_with-Keeps g.limiter (record_result result g) h q)
  Step-Keeps {g} (cancels e) = cancel-Keeps e g

  -- Whatever happens to a group, the error that it keeps is not replaced by a later one, nor is the cause of
  -- its context, and a group that keeps an error has a context that is done, if that held before.
  pub Reach-Keeps : {g h : Group E} → Reach wrap too_many g h → Keeps g h
  Reach-Keeps {g} here = unchanged g g refl refl
  Reach-Keeps {g} {h} (next {h = k} r s) = in_turn g k h (Reach-Keeps r) (Step-Keeps s)

  -- Under a context that is done, `Go` starts a goroutine all the same if no limiter is set, and records
  -- no error; with a limiter that has room for one it starts none, and the context's error is kept if none
  -- was.
  pub go_cancelled :
      (g : Group E) (e : E)
      → g.cause ≡ some e
      → (g.limiter ≡ none → go wrap too_many g ≡ some (spawn none g, true))
        × ((s : Semaphore)
            → g.limiter ≡ some s
            → 1 ≤ s.capacity
            → go wrap too_many g ≡ some (record_err (wrap e) g, false))
  unfolding go
  go_cancelled g e h = (
    λ q. ap (λ o. go_with wrap too_many o g) q,
    λ s q c.
        ap (λ o. go_with wrap too_many o g) q
        ∙ ap (λ r. admit_caller wrap too_many g (r.0) (r.1)) (acquire_n-cancelled g.cause e s h c),
  )
