-- ===== src/Cacheutil/Draining.antt =====
-- That the accepted jobs come to an end.
use mcpcheck.Prelude.{
  ℕ, zero, suc, ◌+◌, ◌*◌, ◌≤◌, ◌<◌, ◌≡◌, ◌⊎◌, inl, inr, refl, ap, false, List, [], ◌∷◌, ◌++◌, some,
  length, ltb, arith, Bool-cases,
}
use mcpcheck.Cacheutil.{
  AsyncWriter, Outcome, Phase, waiting, running, recorded, counted, exited, receive, receive_from,
  flush,
}
use mcpcheck.Cacheutil.Tallies.{busy, turns_left, tally, tally_change}
use mcpcheck.Cacheutil.Finding.{none_busy, found, find_busy, first_waits, first_job}
use mcpcheck.Cacheutil.Outcomes.{receive_from_lem}
use mcpcheck.Cacheutil.Accounts.{
  IsAccounted, held, Step-IsAccounted, started-IsAccounted, Reach-IsAccounted,
}
use mcpcheck.Cacheutil.Leaving.{IsManned, Step-IsManned, Reach-IsManned, record_outcome-queue}
use mcpcheck.Cacheutil.Workers.{
  System, started, Turn, counts, ends, exits, Step, submits, refuses, queues, closes, receives,
  records, turns, Reach,
}

module _ {J E : Type 0} where
  -- The steps that no caller has to make: those of the workers, and the end of a `Submit`.
  abbrev pub IsOwn : {s t : System J E} → Step s t → Type 0
  IsOwn (submits j h e) = ⊥
  IsOwn (refuses j h e) = ⊥
  IsOwn (queues h) = Unit
  IsOwn (closes h) = ⊥
  IsOwn (receives front back j h e) = Unit
  IsOwn (records front back j o h m) = Unit
  IsOwn (turns front back h k) = Unit

  pub data OwnStep (s : System J E) : System J E → Type 0 where
    own : {t : System J E} (k : Step s t) → IsOwn k → OwnStep s t

  -- `Flush` can go on behind its wait, with the lock free for its read.
  abbrev pub CanFlush : System J E → Type 0
  CanFlush s = (flush s.writer s.writer ≡ some s.writer.first_err) × (s.submitting ≡ false)

  -- Own steps go on until `Flush` returns, and none of their sequences is endless.
  pub data Drains : System J E → Type 0 where
    drains :
        {s : System J E}
        → CanFlush s ⊎ ((t : System J E) × OwnStep s t)
        → ((t : System J E) → OwnStep s t → Drains t)
        → Drains s

  abbrev measure : System J E → ℕ
  measure s = 4 * length s.writer.jobs + tally turns_left s.workers + held s.submitting

  turned_less :
      (front back : List (Phase J)) (s : System J E) {v : AsyncWriter J E} {p q : Phase J}
      → s.workers ≡ front ++ p ∷ back
      → Turn s.writer p v q
      → measure (record s { writer = v; workers = front ++ q ∷ back }) < measure s
  turned_less front back s h counts =
      omega (arith, tally_change turns_left s.workers front back recorded counted h)
  turned_less front back s h ends =
      omega (arith, tally_change turns_left s.workers front back counted waiting h)
  turned_less front back s h (exits e) =
      omega (arith, tally_change turns_left s.workers front back waiting exited h)

  own_less : {s t : System J E} (k : Step s t) → IsOwn k → measure t < measure s
  unfolding receive
  own_less (submits j h e) o = absurd o
  own_less (refuses j h e) o = absurd o
  own_less (closes h) o = absurd o
  own_less {s} (queues h) o = omega (arith, ap held h)
  own_less {s} (receives {v} front back j h e) o =
      let (js, p, q) = receive_from_lem s.writer.jobs s.writer v j e in
      omega (
        arith,
        ap length p,
        ap (λ v. length v.jobs) q,
        tally_change turns_left s.workers front back waiting (running j) h,
      )
  own_less {s} (records front back j o h m) u = omega (
    arith,
    ap length (record_outcome-queue o s.writer).1,
    tally_change turns_left s.workers front back (running j) recorded h,
  )
  own_less {s} (turns front back h k) o = turned_less front back s h k

  OwnNext : System J E → Type 0
  OwnNext s = (t : System J E) × OwnStep s t

  busy_step :
      (outcome : J → Outcome E) (front back : List (Phase J)) (p : Phase J) (s : System J E)
      → s.submitting ≡ false
      → s.workers ≡ front ++ p ∷ back
      → busy p ≡ 1
      → OwnNext s
  unfolding OwnNext
  busy_step outcome front back waiting s u h b = absurd (omega arith)
  busy_step outcome front back (running j) s u h b =
      (_, own (records front back j (outcome j) h (inr u)) tt)
  busy_step outcome front back recorded s u h b = (_, own (turns front back h counts) tt)
  busy_step outcome front back counted s u h b = (_, own (turns front back h ends) tt)
  busy_step outcome front back exited s u h b = absurd (omega arith)

  -- Where no worker is busy although a job is pending, it is in the queue and a worker can receive it.
  receive_step :
      (s : System J E)
      → IsAccounted s
      → IsManned s
      → 0 < s.writer.pending
      → tally busy s.workers ≡ 0
      → OwnNext s
  unfolding OwnNext receive
  receive_step s a m pending idle =
      let (j, js, e) = first_job s.writer.jobs (omega (arith, a.counts_up.0, idle)) in
      elim m.stays [
        | inl g ↦
            let (back, h) = first_waits s.workers idle g m.manned in
            (_, own (receives [] back j h (ap (λ ks. receive_from ks s.writer) e)) tt)
        | inr (c, n) ↦ absurd (cc)
      ]

  own_next :
      (outcome : J → Outcome E) (s : System J E)
      → IsAccounted s
      → IsManned s
      → 0 < s.writer.pending
      → OwnNext s
  unfolding OwnNext
  own_next outcome s a m pending = elim (Bool-cases s.submitting) [
    | inl u ↦ (_, own (queues u) tt)
    | inr u ↦ elim (find_busy s.workers) [
      | none_busy idle ↦ receive_step s a m pending idle
      | found front back p h b ↦ busy_step outcome front back p s u h b
    ]
  ]

  flush_or_next :
      (outcome : J → Outcome E) (s : System J E)
      → IsAccounted s
      → IsManned s
      → CanFlush s ⊎ OwnNext s
  unfolding OwnNext
  flush_or_next outcome s a m = elim (Bool-cases (ltb 0 s.writer.pending)) [
    | inl e ↦ inr (own_next outcome s a m (ground (arith, e)))
    | inr e ↦ elim (Bool-cases s.submitting) [
      | inl u ↦ inr (_, own (queues u) tt)
      | inr u ↦ inl (rw e refl, u)
    ]
  ]

  after_own :
      {s t : System J E}
      → OwnStep s t
      → IsAccounted s
      → IsManned s
      → (measure t < measure s) × IsAccounted t × IsManned t
  after_own (own k o) a m = (own_less k o, Step-IsAccounted k a, Step-IsManned k m)

  measured-Drains :
      (outcome : J → Outcome E) (n : ℕ) (s : System J E)
      → IsAccounted s
      → IsManned s
      → measure s ≤ n
      → Drains s
  unfolding OwnNext
  measured-Drains outcome zero s a m h =
      drains (flush_or_next outcome s a m)
        (λ t k. let (less, b, l) = after_own k a m in absurd (omega (arith, less, h)))
  measured-Drains outcome (suc n) s a m h = drains (flush_or_next outcome s a m) (λ t k.
      let (less, b, l) = after_own k a m in
      measured-Drains outcome n t b l (omega (arith, less, h)))

  -- `Flush` returns. In whatever state calls of `Submit` and `Close` and the rounds of the workers have left
  -- the writer since `NewAsyncWriter`, if every job returns something, then without another call the workers
  -- and the end of a `Submit` have a step to make until no job is pending and the lock is free, and none of their sequences of steps is endless.
  pub Reach-Drains :
      (outcome : J → Outcome E) (size n : ℕ) {s : System J E} → Reach (started size n) s → Drains s
  Reach-Drains outcome size n {s} r =
      measured-Drains outcome (measure s) s (Reach-IsAccounted r (started-IsAccounted size n))
        (Reach-IsManned size n r) (omega arith)
