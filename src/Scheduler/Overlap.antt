-- ===== src/Scheduler/Overlap.antt =====
-- The guard against overlap: no entry is invoked while an invocation of it is running.
use mcpcheck.Prelude.{
  ℕ, ◌+◌, ◌≤◌, ◌<◌, ◌≡◌, refl, inl, inr, Bool, true, false, not, ◌&&◌, List, [], ◌∷◌, ◌++◌, Text,
  ◌=ₜ◌, keep, if◌then◌else◌, ◌==◌, arith, Bool-cases,
}
use mcpcheck.Scheduler.{
  Job, Entry, Scheduler, put_job, schedule, has_job, unschedule, is_due, launch, launch_due,
  run_due, finish_in, finish, new_scheduler,
}

-- How often a number is in a list.
pub times : ℕ → List ℕ → ℕ
times n [] = 0
times n (m ∷ ms) = (if m == n then 1 else 0) + times n ms

times-append : (n : ℕ) (ms ks : List ℕ) → times n (ms ++ ks) ≡ times n ms + times n ks
unfolding times
times-append n [] ks = omega arith
times-append n (m ∷ ms) ks = ground (arith, times-append n ms ks)

abbrev pub without : ℕ → List ℕ → List ℕ
without k ms = keep (λ m. not (m == k)) ms

times-without :
    (n k : ℕ) (ms : List ℕ) → times n (without k ms) ≡ (if n == k then 0 else times n ms)
unfolding times
times-without n k [] = ground arith
times-without n k (m ∷ ms) = ground (arith, times-without n k ms)

-- The entries with a number, and those of them that are not running.
pub entries_of : ℕ → List (Text × Entry) → ℕ
entries_of n [] = 0
entries_of n ((_, e) ∷ jobs) = (if e.number == n then 1 else 0) + entries_of n jobs

pub idle_of : ℕ → List (Text × Entry) → ℕ
idle_of n [] = 0
idle_of n ((_, e) ∷ jobs) =
    (if e.running then 0 else if e.number == n then 1 else 0) + idle_of n jobs

put_job-counts :
    (n : ℕ) (name : Text) (e : Entry) (jobs : List (Text × Entry))
    → (entries_of n (put_job name e jobs) ≤ (if e.number == n then 1 else 0) + entries_of n jobs)
      × (idle_of n (put_job name e jobs) ≤ (if e.number == n then 1 else 0) + idle_of n jobs)
unfolding put_job entries_of idle_of
put_job-counts n name e [] = ground arith
put_job-counts n name e ((k, d) ∷ jobs) = ground (arith, put_job-counts n name e jobs)

keep-counts :
    (n : ℕ) (p : Text × Entry → Bool) (jobs : List (Text × Entry))
    → (entries_of n (keep p jobs) ≤ entries_of n jobs) × (idle_of n (keep p jobs) ≤ idle_of n jobs)
unfolding entries_of idle_of
keep-counts n p [] = (omega arith, omega arith)
keep-counts n p ((k, d) ∷ jobs) = ground (arith, keep-counts n p jobs)

is_due-idle : (now : ℕ) (e : Entry) → is_due now e ≡ true → e.running ≡ false
unfolding is_due
is_due-idle now e h = ground arith

launch_due-counts :
    (n now : ℕ) (jobs : List (Text × Entry))
    → (entries_of n (launch_due now jobs).0 ≡ entries_of n jobs)
      × (idle_of n (launch_due now jobs).0 + times n (launch_due now jobs).1 ≡ idle_of n jobs)
unfolding launch_due entries_of idle_of times launch
launch_due-counts n now [] = (refl, refl)
launch_due-counts n now ((k, d) ∷ jobs) = elim (Bool-cases (is_due now d)) [
  | inl e ↦ rw e (ground (arith, launch_due-counts n now jobs, is_due-idle now d e))
  | inr e ↦ rw e (ground (arith, launch_due-counts n now jobs))
]

finish_in-counts :
    (n k : ℕ) (jobs : List (Text × Entry))
    → (entries_of n (finish_in k jobs) ≡ entries_of n jobs)
      × (idle_of n (finish_in k jobs) ≡ (if n == k then entries_of n jobs else idle_of n jobs))
unfolding finish_in entries_of idle_of
finish_in-counts n k [] = ground arith
finish_in-counts n k ((name, d) ∷ jobs) = ground (arith, finish_in-counts n k jobs)

-- The scheduler, and the numbers of the invocations that have been launched and have not ended.
pub record System : Type 0 where
  pub scheduler : Scheduler
  pub active : List ℕ

pub data Step (s : System) : System → Type 0 where
  schedules : (now : ℕ) (j : Job) → Step s (record s { scheduler = (schedule now j s.scheduler).0 })
  unschedules : (name : Text) → Step s (record s { scheduler = (unschedule name s.scheduler).0 })
  runs :
      (now : ℕ)
      → Step s (record {
        scheduler = (run_due now s.scheduler).0;
        active = (run_due now s.scheduler).1 ++ s.active;
      })
  ends :
      (number : ℕ)
      → 0 < times number s.active
      → Step s (record { scheduler = finish number s.scheduler; active = without number s.active })

pub data Reach : System → Type 0 where
  begin : Reach (record { scheduler = new_scheduler; active = [] })
  then_step : {s t : System} → Reach s → Step s t → Reach t

-- What holds of each number n: an entry of it is idle or has one invocation, one entry has it at most, and
-- none has it before it is allocated.
abbrev Single : ℕ → List (Text × Entry) → List ℕ → ℕ → Type 0
Single n jobs active allocated =
    (idle_of n jobs + times n active ≤ 1)
    × (entries_of n jobs ≤ 1)
    × (allocated ≤ n → entries_of n jobs + times n active ≡ 0)

abbrev SystemSingle : ℕ → System → Type 0
SystemSingle n s = Single n s.scheduler.jobs s.active s.scheduler.allocated

idle_le : (n : ℕ) (jobs : List (Text × Entry)) → idle_of n jobs ≤ entries_of n jobs
unfolding idle_of entries_of
idle_le n [] = omega arith
idle_le n ((k, d) ∷ jobs) = ground (arith, idle_le n jobs)

put-Single :
    (n : ℕ) (name : Text) (e : Entry) (jobs : List (Text × Entry)) (active : List ℕ) (allocated : ℕ)
    → e.number ≡ allocated
    → Single n jobs active allocated
    → Single n (put_job name e jobs) active (allocated + 1)
put-Single n name e jobs active allocated q v =
    ground (arith, put_job-counts n name e jobs, idle_le n jobs)

schedule-Single :
    (n now : ℕ) (j : Job) (s : System)
    → SystemSingle n s
    → SystemSingle n (record s { scheduler = (schedule now j s.scheduler).0 })
unfolding schedule
schedule-Single n now j s v = elim (Bool-cases (j.name =ₜ [])) [
  | inl a ↦ rw a v
  | inr a ↦ elim (Bool-cases (not j.has_func)) [
    | inl b ↦ rw (a, b) v
    | inr b ↦ elim (Bool-cases (j.interval == 0 && j.first_at == 0)) [
      | inl c ↦ rw (a, b, c) v
      | inr c ↦ elim (Bool-cases s.scheduler.is_stopped) [
        | inl d ↦ rw (a, b, c, d) v
        | inr d ↦
            rw (a, b, c, d)
              (put-Single n j.name _ s.scheduler.jobs s.active s.scheduler.allocated refl v)
      ]
    ]
  ]
]

unschedule-Single :
    (n : ℕ) (name : Text) (s : System)
    → SystemSingle n s
    → SystemSingle n (record s { scheduler = (unschedule name s.scheduler).0 })
unfolding unschedule
unschedule-Single n name s v = elim (Bool-cases (has_job name s.scheduler.jobs)) [
  | inl e ↦ rw e (omega (arith, v, keep-counts n _ s.scheduler.jobs))
  | inr e ↦ rw e v
]

runs-Single :
    (n now : ℕ) (s : System)
    → SystemSingle n s
    → SystemSingle n (record {
      scheduler = (run_due now s.scheduler).0;
      active = (run_due now s.scheduler).1 ++ s.active;
    })
unfolding run_due
runs-Single n now s v =
    let (a, b) = launch_due-counts n now s.scheduler.jobs in
    let c : _ = times-append n (launch_due now s.scheduler.jobs).1 s.active in
    ground (arith, a, b, c, idle_le n s.scheduler.jobs)

ends-Single :
    (n k : ℕ) (s : System)
    → SystemSingle n s
    → SystemSingle n (record { scheduler = finish k s.scheduler; active = without k s.active })
unfolding finish
ends-Single n k s v = ground (
  arith,
  finish_in-counts n k s.scheduler.jobs,
  times-without n k s.active,
  idle_le n s.scheduler.jobs,
)

Step-Single : (n : ℕ) {s t : System} → Step s t → SystemSingle n s → SystemSingle n t
Step-Single n {s} (schedules now j) v = schedule-Single n now j s v
Step-Single n {s} (unschedules name) v = unschedule-Single n name s v
Step-Single n {s} (runs now) v = runs-Single n now s v
Step-Single n {s} (ends number h) v = ends-Single n number s v

Reach-Single : (n : ℕ) {s : System} → Reach s → SystemSingle n s
unfolding new_scheduler entries_of idle_of times
Reach-Single n begin = (omega arith, omega arith, λ h. omega arith)
Reach-Single n (then_step r k) = Step-Single n k (Reach-Single n r)

-- However calls of `Schedule`, `Unschedule` and `RunDue`, each taken whole, and the ends of invocations
-- follow each other from a new scheduler, no entry has two invocations that have not ended, not even one
-- that was replaced or removed while it ran.
pub no_overlap : (n : ℕ) {s : System} → Reach s → times n s.active ≤ 1
no_overlap n {s} r = let v = Reach-Single n r in omega (arith, v.0)
