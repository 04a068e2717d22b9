-- ===== src/Cacheutil.antt =====
-- internal/cacheutil/async_writer.go. `J` is the type of jobs and `E` that of errors; a nil writer and a nil job
-- are left out, and the counters stay below 2 ^ 63.
pub mod Workers
pub mod Tallies
pub mod Outcomes
pub mod Accounts
pub mod Drained
pub mod Leaving
pub mod Finding
pub mod Draining
use mcpcheck.Prelude.{
  ℕ, zero, suc, ◌+◌, ◌-◌, Bool, true, false, not, List, [], ◌∷◌, ◌++◌, Option, none, some, length,
  ltb, if◌then◌else◌,
}

-- What a job returns; a number of bytes below 0 is passed over as 0 is.
pub record Outcome (E : Type 0) : Type 0 where
  pub written : ℕ
  pub error : Option E

-- `AsyncWriter`: `pending` is what `jobsWG` counts, and `first_err` the errors that are joined.
pub record AsyncWriter (J E : Type 0) : Type 0 where
  pub capacity : ℕ
  pub jobs : List J
  pub closed : Bool
  pub first_err : List E
  pub pending : ℕ
  pub queued : ℕ
  pub completed : ℕ
  pub failed : ℕ
  pub bytes : ℕ

abbrev pub at_least_one : ℕ → ℕ
at_least_one n = if ltb n 1 then 1 else n

-- The channel and the counters that `NewAsyncWriter` makes.
abbrev pub new_async_writer : {J E : Type 0} → ℕ → AsyncWriter J E
new_async_writer size = record {
  capacity = at_least_one size;
  jobs = [];
  closed = false;
  first_err = [];
  pending = 0;
  queued = 0;
  completed = 0;
  failed = 0;
  bytes = 0;
}

-- The `select` of `Submit`, after `jobsWG.Add(1)`: the job is sent where the channel has room.
unfoldable pub enqueue : {J E : Type 0} → J → AsyncWriter J E → AsyncWriter J E × Bool
enqueue j w =
    if ltb (length w.jobs) w.capacity
    then (record w { jobs = w.jobs ++ (j ∷ []) }, true)
    else (record w { pending = w.pending - 1 }, false)

-- `Submit` up to the count of a job that was sent, for which it keeps the lock.
unfoldable pub submit : {J E : Type 0} → J → AsyncWriter J E → AsyncWriter J E × Bool
submit j w = if w.closed then (w, false) else enqueue j (record w { pending = w.pending + 1 })

abbrev pub count_queued : {J E : Type 0} → AsyncWriter J E → AsyncWriter J E
count_queued w = record w { queued = w.queued + 1 }

-- What `Close` does under the lock.
abbrev pub close_jobs : {J E : Type 0} → AsyncWriter J E → AsyncWriter J E
close_jobs w = record w { closed = true }

-- How far a worker is in a round of `run`'s loop.
pub data Phase (J : Type 0) : Type 0 where
  waiting : Phase J
  running : J → Phase J
  recorded : Phase J
  counted : Phase J
  exited : Phase J

-- A worker's receive from the channel: `none` where it blocks.
abbrev pub receive_from :
    {J E : Type 0} → List J → AsyncWriter J E → Option (AsyncWriter J E × Phase J)
receive_from [] w = if w.closed then some (w, exited) else none
receive_from (j ∷ js) w = some (record w { jobs = js }, running j)

unfoldable pub receive : {J E : Type 0} → AsyncWriter J E → Option (AsyncWriter J E × Phase J)
receive w = receive_from w.jobs w

-- `recordErr`
abbrev pub record_err : {J E : Type 0} → E → AsyncWriter J E → AsyncWriter J E
record_err e w = record w { first_err = w.first_err ++ (e ∷ []) }

abbrev pub record_error : {J E : Type 0} → Option E → AsyncWriter J E → AsyncWriter J E
record_error none w = w
record_error (some e) w = record_err e (record w { failed = w.failed + 1 })

-- What `run` does with the outcome of a job before it counts the job as completed.
unfoldable pub record_outcome : {J E : Type 0} → Outcome E → AsyncWriter J E → AsyncWriter J E
record_outcome o w =
    record_error o.error (if ltb 0 o.written then record w { bytes = w.bytes + o.written } else w)

abbrev pub count_completed : {J E : Type 0} → AsyncWriter J E → AsyncWriter J E
count_completed w = record w { completed = w.completed + 1 }

abbrev pub job_done : {J E : Type 0} → AsyncWriter J E → AsyncWriter J E
job_done w = record w { pending = w.pending - 1 }

-- `Flush`, which `Close` calls too: it goes on where no job is pending in the writer `waits`, and reads the
-- errors under the lock, of what the writer is then, `reads`.
abbrev pub flush : {J E : Type 0} → AsyncWriter J E → AsyncWriter J E → Option (List E)
flush waits reads = if ltb 0 waits.pending then none else some reads.first_err
