-- ===== src/Errgroup/Concurrency.antt =====
-- How many goroutines of a group run, and which error it keeps.
use mcpcheck.Prelude.{
  ℕ, ◌+◌, ◌-◌, ◌≤◌, ◌<◌, ◌≡◌, ◌⊎◌, refl, sym, ap, subst, ◌∙◌, inl, inr, Bool, true, false, Option,
  none, some, ltb, arith, Bool-cases, Option-cases,
}
use mcpcheck.Limiter.{
  Semaphore, new_semaphore, Caller, ready, committed, asleep, acquired, over_capacity, cancelled,
  acquire_n, enter, look, try_acquire, try_acquire_n, release, release_n,
}
use mcpcheck.Errgroup.{
  Group, with_context, set_limit, record_first, record_err, spawn, admit_caller, go_with, go,
  resume_with, resume, try_admitted, try_with, try_go, released, release_with, record_result,
  finish, cancel,
}

-- Each goroutine has a permit of the limiter, and a limit is kept.
abbrev pub IsLimited : ℕ → Option Semaphore → ℕ → Type 0
IsLimited n none running = ⊥
IsLimited n (some s) running =
    (s.in_flight ≡ running) × (s.capacity ≡ n) × (s.in_flight ≤ s.capacity)

abbrev pub IsLimitedGroup : {E : Type 0} → ℕ → Group E → Type 0
IsLimitedGroup n g = IsLimited n g.limiter g.running

-- A new group with a limit.
abbrev pub limited : {E : Type 0} → ℕ → Option E → Group E
limited n parent = record {
  limiter = some (record { capacity = n; in_flight = 0; total_acquired = 0; total_waited = 0 });
  running = 0;
  error = none;
  cause = parent;
}

-- What a call of the semaphore has done where it grants a permit.
abbrev Granted : Semaphore → Semaphore → Type 0
Granted s t =
    (t.in_flight ≡ s.in_flight + 1) × (t.capacity ≡ s.capacity) × (t.in_flight ≤ t.capacity)

abbrev Grants : {E : Type 0} → Semaphore → Semaphore → Caller E → Type 0
Grants s t acquired = Granted s t
Grants s t (ready waited) = Unit
Grants s t committed = Unit
Grants s t asleep = Unit
Grants s t over_capacity = Unit
Grants s t (cancelled e) = Unit

look-Grants :
    {E : Type 0} (ctx : Option E) (waited : Bool) (s : Semaphore)
    → Grants s (look ctx 1 waited s).0 (look ctx 1 waited s).1
unfolding look
look-Grants none waited s = elim (Bool-cases (ltb s.capacity (s.in_flight + 1))) [
  | inl a ↦ rw a tt
  | inr a ↦ rw a (refl, refl, ground (arith, a))
]
look-Grants (some e) waited s = elim (Bool-cases (ltb s.capacity (s.in_flight + 1))) [
  | inl a ↦ rw a tt
  | inr a ↦ rw a (refl, refl, ground (arith, a))
]

-- `AcquireN` for one permit begins to look, or ends with an error.
enter_one :
    {E : Type 0} (ctx : Option E) (s : Semaphore)
    → (enter ctx 1 s ≡ ready false)
      ⊎ (enter ctx 1 s ≡ over_capacity)
      ⊎ ((e : E) × (enter ctx 1 s ≡ cancelled e))
unfolding enter
enter_one ctx s = elim (Bool-cases (ltb s.capacity 1)) [
  | inl a ↦ inr (inl (rw a refl))
  | inr a ↦ elim (Option-cases ctx) [
    | inl q ↦ inl (rw (a, q) refl)
    | inr (e, q) ↦ inr (inr (e, rw (a, q) refl))
  ]
]

acquire_n-Grants :
    {E : Type 0} (ctx : Option E) (s : Semaphore)
    → Grants s (acquire_n ctx 1 s).0 (acquire_n ctx 1 s).1
unfolding acquire_n
acquire_n-Grants {E} ctx s = elim (enter_one ctx s) [
  | inl q ↦ subst (λ k. GrantsAfter k) (sym q) (look-Grants ctx false s)
  | inr (inl q) ↦ subst (λ k. GrantsAfter k) (sym q) tt
  | inr (inr (e, q)) ↦ subst (λ k. GrantsAfter k) (sym q) tt
]
  where
    GrantsAfter : Caller E → Type 0
    GrantsAfter k =
        let r : Semaphore × Caller E = elim k [
          | ready waited ↦ look ctx 1 waited s
          | done ↦ (s, done)
        ] in
        Grants s r.0 r.1

record_first-IsLimited :
    {E : Type 0} (n : ℕ) (e : E) (o : Option E) (g : Group E)
    → IsLimitedGroup n g
    → IsLimitedGroup n (record_first e o g)
record_first-IsLimited n e none g v = v
record_first-IsLimited n e (some d) g v = v

record_err-IsLimited :
    {E : Type 0} (n : ℕ) (e : E) (g : Group E)
    → IsLimitedGroup n g
    → IsLimitedGroup n (record_err e g)
unfolding record_err
record_err-IsLimited n e g v = record_first-IsLimited n e g.error g v

module _ {E : Type 0} (wrap : E → E) (too_many : E) where
  -- What happens to a group: calls, the ends of its goroutines, and the end of the parent's context.
  pub data Step (g : Group E) : Group E → Type 0 where
    goes : {h : Group E} (b : Bool) → go wrap too_many g ≡ some (h, b) → Step g h
    resumes : {h : Group E} (b : Bool) → resume wrap too_many g ≡ some (h, b) → Step g h
    tries : Step g (try_go g).0
    ends : {h : Group E} (result : Option E) → 0 < g.running → finish result g ≡ some h → Step g h
    cancels : (e : E) → Step g (cancel e g)

  pub data Reach (g : Group E) : Group E → Type 0 where
    here : Reach g g
    next : {h i : Group E} → Reach g h → Step h i → Reach g i

  admit_caller-IsLimited :
      (n : ℕ) (s t : Semaphore) (c : Caller E) (g h : Group E) (b : Bool)
      → Grants s t c
      → IsLimited n (some s) g.running
      → IsLimitedGroup n g
      → admit_caller wrap too_many g t c ≡ some (h, b)
      → IsLimitedGroup n h
  admit_caller-IsLimited n s t acquired g h b r l v q =
      let p : spawn (some t) g ≡ h = ground (arith, q) in
      subst (IsLimitedGroup n) p (omega (arith, l, r), omega (arith, l, r), r.2)
  admit_caller-IsLimited n s t over_capacity g h b r l v q =
      let p : record_err (wrap too_many) g ≡ h = ground (arith, q) in
      subst (IsLimitedGroup n) p (record_err-IsLimited n (wrap too_many) g v)
  admit_caller-IsLimited n s t (cancelled e) g h b r l v q =
      let p : record_err (wrap e) g ≡ h = ground (arith, q) in
      subst (IsLimitedGroup n) p (record_err-IsLimited n (wrap e) g v)
  admit_caller-IsLimited n s t (ready waited) g h b r l v q = absurd (cc)
  admit_caller-IsLimited n s t committed g h b r l v q = absurd (cc)
  admit_caller-IsLimited n s t asleep g h b r l v q = absurd (cc)

  go_with-IsLimited :
      (n : ℕ) (o : Option Semaphore) (g h : Group E) (b : Bool)
      → IsLimited n o g.running
      → IsLimitedGroup n g
      → go_with wrap too_many o g ≡ some (h, b)
      → IsLimitedGroup n h
  go_with-IsLimited n none g h b l v q = absurd l
  go_with-IsLimited n (some s) g h b l v q =
      admit_caller-IsLimited n s _ _ g h b (acquire_n-Grants g.cause s) l v q

  resume_with-IsLimited :
      (n : ℕ) (o : Option Semaphore) (g h : Group E) (b : Bool)
      → IsLimited n o g.running
      → IsLimitedGroup n g
      → resume_with wrap too_many o g ≡ some (h, b)
      → IsLimitedGroup n h
  resume_with-IsLimited n none g h b l v q = absurd l
  resume_with-IsLimited n (some s) g h b l v q =
      admit_caller-IsLimited n s _ _ g h b (look-Grants g.cause true s) l v q

  try_acquire-Granted : (s : Semaphore) → (try_acquire s).1 ≡ true → Granted s (try_acquire s).0
  unfolding try_acquire try_acquire_n
  try_acquire-Granted s h = elim (Bool-cases (ltb s.capacity (s.in_flight + 1))) [
    | inl a ↦ let q : false ≡ true = rw a at h in absurd (cc)
    | inr a ↦ rw a (refl, refl, ground (arith, a))
  ]

  try_admitted-IsLimited :
      (n : ℕ) (s t : Semaphore) (b : Bool) (g : Group E)
      → (b ≡ true → Granted s t)
      → IsLimited n (some s) g.running
      → IsLimitedGroup n g
      → IsLimitedGroup n (try_admitted g (t, b)).0
  try_admitted-IsLimited n s t true g r l v =
      let k = r refl in (omega (arith, l, k), omega (arith, l, k), k.2)
  try_admitted-IsLimited n s t false g r l v = v

  try_with-IsLimited :
      (n : ℕ) (o : Option Semaphore) (g : Group E)
      → IsLimited n o g.running
      → IsLimitedGroup n g
      → IsLimitedGroup n (try_with o g).0
  try_with-IsLimited n none g l v = absurd l
  try_with-IsLimited n (some s) g l v =
      try_admitted-IsLimited n s (try_acquire s).0 (try_acquire s).1 g (try_acquire-Granted s) l v

  release-one :
      (s : Semaphore)
      → 0 < s.in_flight
      → release s ≡ some (record s { in_flight = s.in_flight - 1 })
  unfolding release release_n
  release-one s h = ground arith

  release_with-IsLimited :
      (n : ℕ) (o : Option Semaphore) (g h : Group E)
      → 0 < g.running
      → IsLimited n o g.running
      → release_with o g ≡ some h
      → IsLimitedGroup n h
  release_with-IsLimited n none g h r l q = absurd l
  release_with-IsLimited n (some s) g h r l q =
      let e = sym (ap (released g) (release-one s (omega (arith, l, r)))) ∙ q in
      let p : record g {
        limiter = some (record s { in_flight = s.in_flight - 1 });
        running = g.running - 1;
      }
          ≡ h =
        ground (arith, e) in
      subst (IsLimitedGroup n) p (omega (arith, l), omega (arith, l), omega (arith, l))

  record_result-limits :
      (result : Option E) (g : Group E)
      → ((record_result result g).limiter ≡ g.limiter)
        × ((record_result result g).running ≡ g.running)
  unfolding record_err
  record_result-limits none g = (refl, refl)
  record_result-limits (some e) g = go_on g.error
    where
      go_on :
          (o : Option E)
          → ((record_first e o g).limiter ≡ g.limiter) × ((record_first e o g).running ≡ g.running)
      go_on none = (refl, refl)
      go_on (some d) = (refl, refl)

  Step-IsLimited : (n : ℕ) {g h : Group E} → Step g h → IsLimitedGroup n g → IsLimitedGroup n h
  unfolding go resume try_go finish
  Step-IsLimited n {g} {h} (goes b q) v = go_with-IsLimited n g.limiter g h b v v q
  Step-IsLimited n {g} {h} (resumes b q) v = resume_with-IsLimited n g.limiter g h b v v q
  Step-IsLimited n {g} tries v = try_with-IsLimited n g.limiter g v v
  Step-IsLimited n {g} {h} (ends result r q) v =
      let k = record_result-limits result g in
      release_with-IsLimited n g.limiter (record_result result g) h (omega (arith, r, k.1))
        (subst (IsLimited n g.limiter) (sym (k.1)) v) q
  Step-IsLimited n (cancels e) v = v

  Reach-IsLimited : (n : ℕ) {g h : Group E} → Reach g h → IsLimitedGroup n g → IsLimitedGroup n h
  Reach-IsLimited n here v = v
  Reach-IsLimited n (next r s) v = Step-IsLimited n s (Reach-IsLimited n r v)

  set_limit-IsLimited :
      (n : ℕ) (parent : Option E) (g : Group E)
      → 0 < n
      → set_limit n (with_context parent) ≡ some g
      → IsLimitedGroup n g
  unfolding set_limit new_semaphore
  set_limit-IsLimited n parent g h q =
      let made : set_limit n (with_context parent) ≡ some (limited n parent) = ground arith in
      let p : limited n parent ≡ g = ground (arith, sym made ∙ q) in
      subst (IsLimitedGroup n) p (refl, refl, omega arith)

  running_le : (n : ℕ) (o : Option Semaphore) (running : ℕ) → IsLimited n o running → running ≤ n
  running_le n none running v = absurd v
  running_le n (some s) running v = omega (arith, v)

  -- From a new group with a limit, however `Go` and `TryGo`, those that wait, the ends of goroutines and the end of
  -- the parent's context follow each other, no more goroutines run than the limit.
  pub Reach-le :
      (n : ℕ) (parent : Option E) {g h : Group E}
      → 0 < n
      → set_limit n (with_context parent) ≡ some g
      → Reach g h
      → h.running ≤ n
  Reach-le n parent {g} {h} p q r =
      running_le n h.limiter h.running (Reach-IsLimited n r (set_limit-IsLimited n parent g p q))
