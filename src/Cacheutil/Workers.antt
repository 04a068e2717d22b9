-- ===== src/Cacheutil/Workers.antt =====
-- The goroutines around an `AsyncWriter`: those that submit or close, and its workers, step by step.
use mcpcheck.Prelude.{ℕ, zero, suc, ◌≡◌, ◌⊎◌, Bool, true, false, List, [], ◌∷◌, ◌++◌, none, some}
use mcpcheck.Cacheutil.{
  AsyncWriter, Outcome, Phase, waiting, running, recorded, counted, exited, new_async_writer,
  at_least_one, submit, count_queued, close_jobs, receive, record_outcome, count_completed,
  job_done,
}

-- A writer with its workers, whether a `Submit` has sent its job and still has the lock, and, of the jobs, those
-- that were accepted and those that were received, and the outcomes that were recorded, each in order.
pub record System (J E : Type 0) : Type 0 where
  pub writer : AsyncWriter J E
  pub workers : List (Phase J)
  pub submitting : Bool
  pub accepted : List J
  pub received : List J
  pub outcomes : List (Outcome E)

abbrev pub idle_workers : {J : Type 0} → ℕ → List (Phase J)
idle_workers zero = []
idle_workers (suc n) = waiting ∷ idle_workers n

-- `NewAsyncWriter`
abbrev pub started : {J E : Type 0} → ℕ → ℕ → System J E
started size n = record {
  writer = new_async_writer size;
  workers = idle_workers (at_least_one n);
  submitting = false;
  accepted = [];
  received = [];
  outcomes = [];
}

module _ {J E : Type 0} where
  -- What a worker does, with the writer and its phase before and after.
  pub data Turn (w : AsyncWriter J E) : Phase J → AsyncWriter J E → Phase J → Type 0 where
    counts : Turn w recorded (count_completed w) counted
    ends : Turn w counted (job_done w) waiting
    exits : receive w ≡ some (w, exited) → Turn w waiting w exited

  -- An error is recorded under the lock, which a `Submit` that has sent its job still has.
  pub data Step (s : System J E) : System J E → Type 0 where
    submits :
        {v : AsyncWriter J E} (j : J)
        → s.submitting ≡ false
        → submit j s.writer ≡ (v, true)
        → Step s (record s { writer = v; submitting = true; accepted = s.accepted ++ (j ∷ []) })
    refuses :
        {v : AsyncWriter J E} (j : J)
        → s.submitting ≡ false
        → submit j s.writer ≡ (v, false)
        → Step s (record s { writer = v })
    queues :
        s.submitting ≡ true
        → Step s (record s { writer = count_queued s.writer; submitting = false })
    closes : s.submitting ≡ false → Step s (record s { writer = close_jobs s.writer })
    receives :
        {v : AsyncWriter J E} (front back : List (Phase J)) (j : J)
        → s.workers ≡ front ++ waiting ∷ back
        → receive s.writer ≡ some (v, running j)
        → Step s (record s {
          writer = v;
          workers = front ++ running j ∷ back;
          received = s.received ++ (j ∷ []);
        })
    records :
        (front back : List (Phase J)) (j : J) (o : Outcome E)
        → s.workers ≡ front ++ running j ∷ back
        → (o.error ≡ none) ⊎ (s.submitting ≡ false)
        → Step s (record s {
          writer = record_outcome o s.writer;
          workers = front ++ recorded ∷ back;
          outcomes = s.outcomes ++ (o ∷ []);
        })
    turns :
        {v : AsyncWriter J E} {p q : Phase J} (front back : List (Phase J))
        → s.workers ≡ front ++ p ∷ back
        → Turn s.writer p v q
        → Step s (record s { writer = v; workers = front ++ q ∷ back })

  pub data Reach (s : System J E) : System J E → Type 0 where
    here : Reach s s
    next : {t v : System J E} → Reach s t → Step t v → Reach s v
