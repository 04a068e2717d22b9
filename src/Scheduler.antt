-- ===== src/Scheduler.antt =====
-- internal/scheduler/scheduler.go: the jobs and when they run. A time or a duration is a number of
-- nanoseconds; 0 is the zero `time.Time`, and an interval that is not positive is 0. Each critical section is
-- taken alone; an invocation that has ended is `finish`.
pub mod Due
pub mod Sleep
pub mod Overlap
use mcpcheck.Prelude.{
  ℕ, ◌+◌, ◌-◌, Bool, true, false, not, ◌&&◌, ◌||◌, List, [], ◌∷◌, Option, none, some, Text, ◌=ₜ◌,
  text_lt, sort, keep, any, ltb, leb, if◌then◌else◌, ◌==◌,
}

pub record Job : Type 0 where
  pub name : Text
  pub has_func : Bool  -- whether `Func` is set
  pub interval : ℕ
  pub first_at : ℕ  -- the field `At`

pub data Error : Type 0 where
  name_required no_func no_schedule stopped : Error

-- `entry`. The code tells the entries of one name apart by their addresses; here each has its number.
pub record Entry : Type 0 where
  pub spec : Job
  pub next_due : ℕ
  pub running : Bool
  pub number : ℕ

-- The map of jobs, in the order of one iteration, the flag of `Stop`, and the next entry's number.
pub record Scheduler : Type 0 where
  pub jobs : List (Text × Entry)
  pub is_stopped : Bool
  pub allocated : ℕ

unfoldable pub new_scheduler : Scheduler
new_scheduler = record { jobs = []; is_stopped = false; allocated = 0 }

-- `s.jobs[name] = e`
unfoldable pub put_job : Text → Entry → List (Text × Entry) → List (Text × Entry)
put_job name e [] = (name, e) ∷ []
put_job name e ((k, d) ∷ jobs) =
    if k =ₜ name then (name, e) ∷ jobs else (k, d) ∷ put_job name e jobs

-- `Schedule`; nil is `none`.
unfoldable pub schedule : ℕ → Job → Scheduler → Scheduler × Option Error
schedule now j s =
    if j.name =ₜ []
    then (s, some name_required)
    else if not j.has_func
    then (s, some no_func)
    else if j.interval == 0 && j.first_at == 0
    then (s, some no_schedule)
    else if s.is_stopped
    then (s, some stopped)
    else (
      record s {
        jobs =
            put_job j.name
              (record {
                spec = j;
                next_due = if j.first_at == 0 then now + j.interval else j.first_at;
                running = false;
                number = s.allocated;
              })
              s.jobs;
        allocated = s.allocated + 1;
      },
      none,
    )

abbrev pub has_job : Text → List (Text × Entry) → Bool
has_job name jobs = any (λ p. p.0 =ₜ name) jobs

-- `Unschedule`
unfoldable pub unschedule : Text → Scheduler → Scheduler × Bool
unschedule name s =
    if has_job name s.jobs
    then (record s { jobs = keep (λ p. not (p.0 =ₜ name)) s.jobs }, true)
    else (s, false)

abbrev pub job_names : List (Text × Entry) → List Text
job_names [] = []
job_names ((name, _) ∷ jobs) = name ∷ job_names jobs

-- `Names`
unfoldable pub names : Scheduler → List Text
names s = sort text_lt (job_names s.jobs)

-- One round of the loop of `NextDue`.
abbrev pub sooner : Option ℕ → ℕ → Option ℕ
sooner none due = some due
sooner (some earliest) due = if ltb due earliest then some due else some earliest

-- The loop of `NextDue` from the earliest time so far, `none` standing for `found` false.
unfoldable pub earliest_from : Option ℕ → List (Text × Entry) → Option ℕ
earliest_from best [] = best
earliest_from best ((_, e) ∷ jobs) =
    if e.next_due == 0 then earliest_from best jobs else earliest_from (sooner best e.next_due) jobs

-- `NextDue`
unfoldable pub next_due : Scheduler → Option ℕ
next_due s = earliest_from none s.jobs

-- The tests of the first loop of `RunDue`.
unfoldable pub is_due : ℕ → Entry → Bool
is_due now e =
    if e.next_due == 0 || ltb now e.next_due then false else if e.running then false else true

-- `CompareAndSwap` and `advanceNext` for an entry that is not running.
unfoldable pub launch : ℕ → Entry → Entry
launch now e = record e {
  running = true;
  next_due = if ltb 0 e.spec.interval then now + e.spec.interval else 0;
}

-- Both loops of `RunDue`, with nothing in between: the jobs, and the numbers of the entries that are launched.
unfoldable pub launch_due : ℕ → List (Text × Entry) → List (Text × Entry) × List ℕ
launch_due now [] = ([], [])
launch_due now ((name, e) ∷ jobs) =
    let (rest, launched) = launch_due now jobs in
    if is_due now e
    then ((name, launch now e) ∷ rest, e.number ∷ launched)
    else ((name, e) ∷ rest, launched)

-- `RunDue`; it returns how many numbers there are.
unfoldable pub run_due : ℕ → Scheduler → Scheduler × List ℕ
run_due now s = let (jobs, launched) = launch_due now s.jobs in (record s { jobs = jobs }, launched)

unfoldable pub finish_in : ℕ → List (Text × Entry) → List (Text × Entry)
finish_in number [] = []
finish_in number ((name, e) ∷ jobs) =
    if e.number == number
    then (name, record e { running = false }) ∷ finish_in number jobs
    else (name, e) ∷ finish_in number jobs

-- The deferred `running.Store(false)` of `run`, of the entry with a number; it may have left the map.
unfoldable pub finish : ℕ → Scheduler → Scheduler
finish number s = record s { jobs = finish_in number s.jobs }

-- time.Minute
abbrev pub idle_timeout : ℕ
idle_timeout = 60000000000

-- time.Microsecond
abbrev pub short_sleep : ℕ
short_sleep = 1000

-- `nextSleep`, by what `NextDue` returns.
abbrev pub sleep_until : ℕ → Option ℕ → ℕ
sleep_until now none = idle_timeout
sleep_until now (some next) =
    if leb next now
    then short_sleep
    else if ltb idle_timeout (next - now)
    then idle_timeout
    else next - now

unfoldable pub next_sleep : ℕ → Scheduler → ℕ
next_sleep now s = sleep_until now (next_due s)

-- The flag that `Stop` sets.
unfoldable pub stop : Scheduler → Scheduler
stop s = record s { is_stopped = true }
