-- ===== src/Scheduler/Due.antt =====
-- Which jobs run, and which is next.
use mcpcheck.Prelude.{
  ℕ, ◌≤◌, ◌≡◌, ◌≢◌, refl, sym, ap, ◌⊎◌, inl, inr, false, List, [], ◌∷◌, none, some, Text, ltb, ◌==◌,
  arith, Bool-cases,
}
use mcpcheck.Scheduler.{
  Entry, Scheduler, earliest_from, next_due, is_due, launch, launch_due, run_due,
}

launched-not_due : (now : ℕ) (e : Entry) → is_due now (launch now e) ≡ false
unfolding is_due launch
launched-not_due now e = ground arith

-- A job that starts at a time is not started again at that time: a second `RunDue` launches nothing and
-- changes nothing.
pub launch_due-twice :
    (now : ℕ) (jobs : List (Text × Entry))
    → launch_due now (launch_due now jobs).0 ≡ ((launch_due now jobs).0, [])
unfolding launch_due
launch_due-twice now [] = refl
launch_due-twice now ((name, e) ∷ jobs) = elim (Bool-cases (is_due now e)) [
  | inl d ↦ rw d (
      rw (launched-not_due now e) (
        ap (λ (p : List (Text × Entry) × List ℕ). ((name, launch now e) ∷ p.0, p.1))
          (launch_due-twice now jobs)))
  | inr d ↦
      rw (d, launch_due, d)
        (ap (λ (p : List (Text × Entry) × List ℕ). ((name, e) ∷ p.0, p.1))
          (launch_due-twice now jobs))
]

-- A job that starts at a time does not start again at that time: behind a `RunDue`, another at the same time
-- launches nothing and leaves the scheduler as it is.
pub run_due-twice :
    (now : ℕ) (s : Scheduler) → run_due now (run_due now s).0 ≡ ((run_due now s).0, [])
unfolding run_due
run_due-twice now s =
    ap (λ (p : List (Text × Entry) × List ℕ). (record s { jobs = p.0 }, p.1))
      (launch_due-twice now s.jobs)

-- No job of the list is due before a time.
abbrev pub IsBound : ℕ → List (Text × Entry) → Type 0
IsBound t [] = Unit
IsBound t ((_, e) ∷ jobs) = (e.next_due ≢ 0 → t ≤ e.next_due) × IsBound t jobs

-- A time is that of a job.
abbrev pub IsOfJob : ℕ → List (Text × Entry) → Type 0
IsOfJob t [] = ⊥
IsOfJob t ((_, e) ∷ jobs) = ((e.next_due ≡ t) × (t ≢ 0)) ⊎ IsOfJob t jobs

abbrev pub AreIdle : List (Text × Entry) → Type 0
AreIdle [] = Unit
AreIdle ((_, e) ∷ jobs) = (e.next_due ≡ 0) × AreIdle jobs

-- What the loop of `NextDue` returns when the best time before it is `best`.
earliest_from-some :
    (best : ℕ) (jobs : List (Text × Entry))
    → (t : ℕ) × (earliest_from (some best) jobs ≡ some t)
      × (t ≤ best)
      × IsBound t jobs
      × ((t ≡ best) ⊎ IsOfJob t jobs)
unfolding earliest_from
earliest_from-some best [] = (best, refl, omega arith, tt, inl refl)
earliest_from-some best ((name, e) ∷ jobs) = elim (Bool-cases (e.next_due == 0)) [
  | inl z ↦
      let (t, q, l, b, o) = earliest_from-some best jobs in
      rw z
        (t, q, l, (λ n. absurd (ground arith), b), elim o [ inl x ↦ inl x | inr x ↦ inr (inr x) ])
  | inr z ↦ elim (Bool-cases (ltb e.next_due best)) [
    | inl s ↦
        let (t, q, l, b, o) = earliest_from-some e.next_due jobs in
        rw (z, s)
          (
            t,
            q,
            ground arith,
            (λ n. l, b),
            inr (elim o [ inl x ↦ inl (sym x, ground arith) | inr x ↦ inr x ]),
          )
    | inr s ↦
        let (t, q, l, b, o) = earliest_from-some best jobs in
        rw (z, s) (t, q, l, (λ n. ground arith, b), elim o [ inl x ↦ inl x | inr x ↦ inr (inr x) ])
  ]
]

earliest_from-none :
    (jobs : List (Text × Entry))
    → ((earliest_from none jobs ≡ none) × AreIdle jobs)
      ⊎ ((t : ℕ) × (earliest_from none jobs ≡ some t) × IsBound t jobs × IsOfJob t jobs)
unfolding earliest_from
earliest_from-none [] = inl (refl, tt)
earliest_from-none ((name, e) ∷ jobs) = elim (Bool-cases (e.next_due == 0)) [
  | inl z ↦ rw z (elim (earliest_from-none jobs) [
    | inl (q, i) ↦ inl (q, (ground arith, i))
    | inr (t, q, b, o) ↦ inr (t, q, (λ n. absurd (ground arith), b), inr o)
  ])
  | inr z ↦
      let (t, q, l, b, o) = earliest_from-some e.next_due jobs in
      rw z (inr (t, q, (λ n. l, b), elim o [ inl x ↦ inl (sym x, ground arith) | inr x ↦ inr x ]))
]

-- `NextDue` finds nothing, and every job is without a next time; or it finds the next time of a job, and no
-- job has an earlier one.
pub next_due_cases :
    (s : Scheduler)
    → ((next_due s ≡ none) × AreIdle s.jobs)
      ⊎ ((t : ℕ) × (next_due s ≡ some t) × IsBound t s.jobs × IsOfJob t s.jobs)
unfolding next_due
next_due_cases s = earliest_from-none s.jobs
