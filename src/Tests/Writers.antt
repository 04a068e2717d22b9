-- ===== src/Tests/Writers.antt =====
-- A writer with room for one job and one worker. The jobs are numbers, and so are the errors.
use mcpcheck.Prelude.{ℕ, ◌≡◌, refl, inl, Bool, true, false, List, [], ◌∷◌, ◌++◌, none, length}
use mcpcheck.Cacheutil.{Outcome, waiting, submit, enqueue, receive, record_outcome}
use mcpcheck.Cacheutil.Workers.{
  System, started, counts, ends, submits, queues, receives, records, turns, Reach, here, next,
}
use mcpcheck.Cacheutil.Outcomes.{errors_of}
use mcpcheck.Cacheutil.Drained.{drained}
use mcpcheck.Cacheutil.Draining.{Drains, Reach-Drains}

abbrev job_written : Outcome ℕ
job_written = record { written = 5; error = none }

abbrev after_job : ℕ → Bool → ℕ → System ℕ ℕ
after_job queued_so_far submitting pending = record {
  writer = record {
    capacity = 1;
    jobs = [];
    closed = false;
    first_err = [];
    pending = pending;
    queued = queued_so_far;
    completed = 1;
    failed = 0;
    bytes = 5;
  };
  workers = waiting ∷ [];
  submitting = submitting;
  accepted = 7 ∷ [];
  received = 7 ∷ [];
  outcomes = job_written ∷ [];
}

-- The worker is through with the job before `Submit` has counted it.
ahead : Reach (started 1 1) (after_job 0 true 0)
unfolding submit enqueue receive record_outcome
ahead =
    next
      (next
        (next (next (next here (submits 7 refl refl)) (receives [] [] 7 refl refl))
          (records [] [] 7 job_written refl (inl refl)))
        (turns [] [] refl counts))
      (turns [] [] refl ends)

abbrev one_written : System ℕ ℕ
one_written = after_job 1 false 0

-- Another job is accepted when `Flush` has waited.
abbrev job_behind : System ℕ ℕ
job_behind = record one_written {
  writer = record one_written.writer { jobs = 8 ∷ []; pending = 1; queued = 2 };
  accepted = 7 ∷ 8 ∷ [];
}

accepts_behind : Reach one_written job_behind
unfolding submit enqueue
accepts_behind = next (next here (submits 8 refl refl)) (queues refl)

drained_example :
    (one_written.received ≡ one_written.accepted)
    × (one_written.writer.jobs ≡ [])
    × (one_written.writer.completed ≡ 1)
    × (length one_written.outcomes ≡ 1)
    × (one_written.writer.failed ≡ 0)
    × (one_written.writer.bytes ≡ 5)
    × ((between : List (Outcome ℕ)) × (job_behind.outcomes ≡ one_written.outcomes ++ between)
        × ([] ≡ errors_of one_written.outcomes ++ errors_of between))
drained_example = drained 1 1 (next ahead (queues refl)) accepts_behind refl

Drains_example : Drains (after_job 0 true 0)
Drains_example = Reach-Drains (λ j. job_written) 1 1 ahead
