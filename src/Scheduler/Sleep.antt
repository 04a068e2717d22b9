-- ===== src/Scheduler/Sleep.antt =====
-- How long `Start` sleeps, and which jobs `Schedule` takes.
use mcpcheck.Prelude.{
  ℕ, ◌+◌, ◌-◌, ◌≤◌, ◌<◌, ◌≡◌, ◌≢◌, ◌↔◌, refl, sym, ap, subst, ◌⊎◌, inl, inr, true, false, List, [],
  ◌∷◌, none, some, Text, ◌=ₜ◌, text_eq_iff, ltb, ◌==◌, arith, Bool-cases,
}
use mcpcheck.Scheduler.{
  Job, Entry, Scheduler, schedule, next_due, is_due, launch_due, run_due, idle_timeout, short_sleep,
  next_sleep, sleep_until,
}
use mcpcheck.Scheduler.Due.{IsBound, AreIdle, next_due_cases}

-- Each job that is due is running.
abbrev pub AreBusy : ℕ → List (Text × Entry) → Type 0
AreBusy now [] = Unit
AreBusy now ((_, e) ∷ jobs) =
    (e.next_due ≢ 0 → e.next_due ≤ now → e.running ≡ true) × AreBusy now jobs

-- Some job is due.
abbrev pub AnyDue : ℕ → List (Text × Entry) → Type 0
AnyDue now [] = ⊥
AnyDue now ((_, e) ∷ jobs) = ((e.next_due ≢ 0) × (e.next_due ≤ now)) ⊎ AnyDue now jobs

busy-not_due :
    (now : ℕ) (e : Entry)
    → (e.next_due ≢ 0 → e.next_due ≤ now → e.running ≡ true)
    → is_due now e ≡ false
unfolding is_due
busy-not_due now e h = elim (Bool-cases e.running) [
  | inl r ↦ ground arith
  | inr r ↦ elim (Bool-cases (e.next_due == 0)) [
    | inl z ↦ ground arith
    | inr z ↦ elim (Bool-cases (ltb now e.next_due)) [
      | inl l ↦ ground arith
      | inr l ↦
          let n : e.next_due ≢ 0 = λ q. ground arith in
          let k : e.next_due ≤ now = ground arith in let b : _ = h n k in absurd (cc)
    ]
  ]
]

launch_due-AreBusy :
    (now : ℕ) (jobs : List (Text × Entry)) → AreBusy now jobs → launch_due now jobs ≡ (jobs, [])
unfolding launch_due
launch_due-AreBusy now [] h = refl
launch_due-AreBusy now ((name, e) ∷ jobs) h = rw (busy-not_due now e h.0) (
    ap (λ (p : List (Text × Entry) × List ℕ). ((name, e) ∷ p.0, p.1))
      (launch_due-AreBusy now jobs h.1))

idle-none_due : (now : ℕ) (jobs : List (Text × Entry)) → AreIdle jobs → ¬ AnyDue now jobs
idle-none_due now [] i d = d
idle-none_due now ((_, e) ∷ jobs) i (inl (n, _)) = n i.0
idle-none_due now ((_, e) ∷ jobs) i (inr d) = idle-none_due now jobs i.1 d

bound-le : (now t : ℕ) (jobs : List (Text × Entry)) → IsBound t jobs → AnyDue now jobs → t ≤ now
bound-le now t [] b d = absurd d
bound-le now t ((_, e) ∷ jobs) b (inl (n, l)) = omega (arith, b.0 n)
bound-le now t ((_, e) ∷ jobs) b (inr d) = bound-le now t jobs b.1 d

next_sleep-some :
    (now t : ℕ) (s : Scheduler)
    → next_due s ≡ some t
    → ((t ≤ now) × (next_sleep now s ≡ short_sleep))
      ⊎ ((now + idle_timeout < t) × (next_sleep now s ≡ idle_timeout))
      ⊎ ((now < t) × (t ≤ now + idle_timeout) × (next_sleep now s ≡ t - now))
unfolding next_sleep
next_sleep-some now t s e =
    subst
      (λ o.
        ((t ≤ now) × (sleep_until now o ≡ short_sleep))
        ⊎ ((now + idle_timeout < t) × (sleep_until now o ≡ idle_timeout))
        ⊎ ((now < t) × (t ≤ now + idle_timeout) × (sleep_until now o ≡ t - now)))
      (sym e) (ground arith)

next_sleep-none : (now : ℕ) (s : Scheduler) → next_due s ≡ none → next_sleep now s ≡ idle_timeout
unfolding next_sleep
next_sleep-none now s e = ap (sleep_until now) e

-- Where some job is due and each job that is due is running, `RunDue` launches nothing and leaves the
-- scheduler as it is, and `nextSleep` gives one microsecond.
pub overrun_spins :
    (now : ℕ) (s : Scheduler)
    → AreBusy now s.jobs
    → AnyDue now s.jobs
    → (run_due now s ≡ (s, [])) × (next_sleep now s ≡ short_sleep)
unfolding run_due
overrun_spins now s b d = (
  ap (λ (p : List (Text × Entry) × List ℕ). (record s { jobs = p.0 }, p.1))
      (launch_due-AreBusy now s.jobs b),
  elim (next_due_cases s) [
    | inl (e, i) ↦ absurd (idle-none_due now s.jobs i d)
    | inr (t, e, bound, o) ↦ elim (next_sleep-some now t s e) [
      | inl (l, q) ↦ q
      | inr (inl (l, q)) ↦ absurd (omega (arith, bound-le now t s.jobs bound d))
      | inr (inr (l, k, q)) ↦ absurd (omega (arith, bound-le now t s.jobs bound d))
    ]
  ],
)

-- No job that is not due yet is overslept by more than a microsecond.
abbrev pub AreWoken : ℕ → ℕ → List (Text × Entry) → Type 0
AreWoken now sleep [] = Unit
AreWoken now sleep ((_, e) ∷ jobs) =
    (e.next_due ≢ 0 → now ≤ e.next_due → now + sleep ≤ e.next_due + short_sleep)
    × AreWoken now sleep jobs

bound-AreWoken :
    (now sleep t : ℕ) (jobs : List (Text × Entry))
    → IsBound t jobs
    → now + sleep ≤ t + short_sleep
    → AreWoken now sleep jobs
bound-AreWoken now sleep t [] b h = tt
bound-AreWoken now sleep t ((_, e) ∷ jobs) b h =
    (λ n l. omega (arith, b.0 n), bound-AreWoken now sleep t jobs b.1 h)

short-AreWoken : (now : ℕ) (jobs : List (Text × Entry)) → AreWoken now short_sleep jobs
short-AreWoken now [] = tt
short-AreWoken now ((_, e) ∷ jobs) = (λ n l. omega (arith, l), short-AreWoken now jobs)

idle-AreWoken :
    (now sleep : ℕ) (jobs : List (Text × Entry)) → AreIdle jobs → AreWoken now sleep jobs
idle-AreWoken now sleep [] i = tt
idle-AreWoken now sleep ((_, e) ∷ jobs) i =
    (λ n l. absurd (n i.0), idle-AreWoken now sleep jobs i.1)

-- `nextSleep` gives at least a nanosecond and at most a minute, and at most a microsecond past the next time
-- of any job that is not overdue.
pub next_sleep_lem :
    (now : ℕ) (s : Scheduler)
    → (0 < next_sleep now s)
      × (next_sleep now s ≤ idle_timeout)
      × AreWoken now (next_sleep now s) s.jobs
next_sleep_lem now s = elim (next_due_cases s) [
  | inl (e, i) ↦
      let q : next_sleep now s ≡ idle_timeout = next_sleep-none now s e in
      rw q (omega arith, omega arith, idle-AreWoken now idle_timeout s.jobs i)
  | inr (t, e, bound, o) ↦ elim (next_sleep-some now t s e) [
    | inl (l, q) ↦ rw q (omega arith, omega arith, short-AreWoken now s.jobs)
    | inr (inl (l, q)) ↦ rw q (
      omega arith,
      omega arith,
      bound-AreWoken now idle_timeout t s.jobs bound (omega (arith, l)),
    )
    | inr (inr (l, k, q)) ↦ rw q (
      omega (arith, l),
      omega (arith, k),
      bound-AreWoken now (t - now) t s.jobs bound (omega (arith, l)),
    )
  ]
]

-- `Schedule` succeeds exactly for a job with a name, a function, and an interval or a first time, on a
-- scheduler that is not stopped.
pub schedule_iff :
    (now : ℕ) (j : Job) (s : Scheduler)
    → ((schedule now j s).1 ≡ none) ↔ (
        (j.name ≢ [])
        × (j.has_func ≡ true)
        × ((0 < j.interval) ⊎ (0 < j.first_at))
        × (s.is_stopped ≡ false))
unfolding schedule
schedule_iff now j s = (
  λ e. (
    λ p. absurd (ground (arith, (text_eq_iff j.name []).1 p)),
    ground arith,
    ground arith,
    ground arith,
  ),
  λ (n, f, h, o).
      let named : (j.name =ₜ []) ≡ false = elim (Bool-cases (j.name =ₜ [])) [
        | inl q ↦ absurd (n ((text_eq_iff j.name []).0 q))
        | inr q ↦ q
      ] in
      ground arith,
)
