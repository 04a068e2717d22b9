-- ===== src/Cacheutil/Accounts.antt =====
-- What the counts of a writer say, however the steps follow each other.
use mcpcheck.Prelude.{
  ℕ, ◌+◌, ◌≤◌, ◌<◌, ◌≡◌, refl, sym, ap, subst, ◌∙◌, Bool, true, false, List, [], ◌∷◌, ◌++◌,
  append_assoc, length, length-append, arith,
}
use mcpcheck.Cacheutil.{
  AsyncWriter, Outcome, Phase, waiting, running, recorded, counted, exited, at_least_one, receive,
  record_outcome,
}
use mcpcheck.Cacheutil.Outcomes.{
  errors_of, written_of, submit_accepts, submit_refuses, receive_from_lem, record_outcome_lem,
}
use mcpcheck.Cacheutil.Tallies.{in_job, uncounted, busy, tally, tally_change, tally-idle_workers}
use mcpcheck.Cacheutil.Workers.{
  System, started, Turn, counts, ends, exits, Step, submits, refuses, queues, closes, receives,
  records, turns, Reach, here, next,
}

abbrev pub held : Bool → ℕ
held true = 1
held false = 0

module _ {J E : Type 0} where
  -- The jobs are received in the order in which they were accepted, and the queue is within its capacity.
  abbrev pub IsQueued : System J E → Type 0
  IsQueued s =
      (s.received ++ s.writer.jobs ≡ s.accepted)
      × (length s.writer.jobs ≤ s.writer.capacity)
      × (s.writer.queued + held s.submitting ≡ length s.accepted)

  -- The group's count, the outcomes and the count of completed jobs are those of the rounds so far.
  abbrev pub IsCounted : System J E → Type 0
  IsCounted s =
      (s.writer.pending ≡ length s.writer.jobs + tally busy s.workers)
      × (length s.outcomes + tally in_job s.workers ≡ length s.received)
      × (s.writer.completed + tally uncounted s.workers ≡ length s.received)

  -- The errors and the other counts are those of the outcomes.
  abbrev pub IsRecorded : System J E → Type 0
  IsRecorded s =
      (s.writer.first_err ≡ errors_of s.outcomes)
      × (s.writer.failed ≡ length (errors_of s.outcomes))
      × (s.writer.bytes ≡ written_of s.outcomes)

  pub record IsAccounted (s : System J E) : Type 0 where
    pub queue : IsQueued s
    pub counts_up : IsCounted s
    pub records_all : IsRecorded s

  submitted-IsAccounted :
      (j : J) (s : System J E)
      → s.submitting ≡ false
      → length s.writer.jobs < s.writer.capacity
      → IsAccounted s
      → IsAccounted (record s {
        writer = record s.writer {
          jobs = s.writer.jobs ++ (j ∷ []);
          pending = s.writer.pending + 1;
        };
        submitting = true;
        accepted = s.accepted ++ (j ∷ []);
      })
  submitted-IsAccounted j s h room a =
      let n = length-append s.writer.jobs (j ∷ []) in
      let count = length-append s.accepted (j ∷ []) in
      let no_one : held s.submitting ≡ 0 = ap held h in
      record {
        queue = (
          sym (append_assoc s.received s.writer.jobs (j ∷ [])) ∙ ap (λ z. z ++ (j ∷ [])) a.queue.0,
          omega (arith, n, room),
          omega (arith, count, no_one, a.queue.2),
        );
        counts_up = (omega (arith, n, a.counts_up.0), a.counts_up.1, a.counts_up.2);
        records_all = a.records_all;
      }

  received-IsAccounted :
      (front back : List (Phase J)) (j : J) (js : List J) (s : System J E)
      → s.workers ≡ front ++ waiting ∷ back
      → s.writer.jobs ≡ j ∷ js
      → IsAccounted s
      → IsAccounted (record s {
        writer = record s.writer { jobs = js };
        workers = front ++ running j ∷ back;
        received = s.received ++ (j ∷ []);
      })
  received-IsAccounted front back j js s h p a =
      let n : length s.writer.jobs ≡ 1 + length js = ap length p ∙ omega arith in
      let m = length-append s.received (j ∷ []) in
      record {
        queue = (
          append_assoc s.received (j ∷ []) js ∙ ap (λ z. s.received ++ z) (sym p) ∙ a.queue.0,
          omega (arith, n, a.queue.1),
          a.queue.2,
        );
        counts_up = (
          omega (
            arith,
            n,
            a.counts_up.0,
            tally_change busy s.workers front back waiting (running j) h,
          ),
          omega (
            arith,
            m,
            a.counts_up.1,
            tally_change in_job s.workers front back waiting (running j) h,
          ),
          omega (
            arith,
            m,
            a.counts_up.2,
            tally_change uncounted s.workers front back waiting (running j) h,
          ),
        );
        records_all = a.records_all;
      }

  recorded-IsAccounted :
      (front back : List (Phase J)) (j : J) (o : Outcome E) (s : System J E)
      → s.workers ≡ front ++ running j ∷ back
      → IsAccounted s
      → IsAccounted (record s {
        writer = record_outcome o s.writer;
        workers = front ++ recorded ∷ back;
        outcomes = s.outcomes ++ (o ∷ []);
      })
  recorded-IsAccounted front back j o s h a =
      let (b, c, d) = a.records_all in
      subst
        (λ v. IsAccounted (record s {
          writer = v;
          workers = front ++ recorded ∷ back;
          outcomes = s.outcomes ++ (o ∷ []);
        }))
        (sym (record_outcome_lem o s.writer s.outcomes b c d))
        (record {
          queue = a.queue;
          counts_up = (
            omega (
              arith,
              a.counts_up.0,
              tally_change busy s.workers front back (running j) recorded h,
            ),
            omega (
              arith,
              length-append s.outcomes (o ∷ []),
              a.counts_up.1,
              tally_change in_job s.workers front back (running j) recorded h,
            ),
            omega (
              arith,
              a.counts_up.2,
              tally_change uncounted s.workers front back (running j) recorded h,
            ),
          );
          records_all = (refl, refl, refl);
        })

  -- What the workers' phases count, after one has changed.
  turned-IsCounted :
      (front back : List (Phase J)) (s : System J E) {v : AsyncWriter J E} {p q : Phase J}
      → s.workers ≡ front ++ p ∷ back
      → Turn s.writer p v q
      → IsCounted s
      → IsCounted (record s { writer = v; workers = front ++ q ∷ back })
  turned-IsCounted front back s h counts (a, b, c) = (
    omega (arith, a, tally_change busy s.workers front back recorded counted h),
    omega (arith, b, tally_change in_job s.workers front back recorded counted h),
    omega (arith, c, tally_change uncounted s.workers front back recorded counted h),
  )
  turned-IsCounted front back s h ends (a, b, c) = (
    omega (arith, a, tally_change busy s.workers front back counted waiting h),
    omega (arith, b, tally_change in_job s.workers front back counted waiting h),
    omega (arith, c, tally_change uncounted s.workers front back counted waiting h),
  )
  turned-IsCounted front back s h (exits e) (a, b, c) = (
    omega (arith, a, tally_change busy s.workers front back waiting exited h),
    omega (arith, b, tally_change in_job s.workers front back waiting exited h),
    omega (arith, c, tally_change uncounted s.workers front back waiting exited h),
  )

  turned-IsAccounted :
      (front back : List (Phase J)) (s : System J E) {v : AsyncWriter J E} {p q : Phase J}
      → s.workers ≡ front ++ p ∷ back
      → Turn s.writer p v q
      → IsAccounted s
      → IsAccounted (record s { writer = v; workers = front ++ q ∷ back })
  turned-IsAccounted front back s h counts a = record {
    queue = a.queue;
    counts_up = turned-IsCounted front back s h counts a.counts_up;
    records_all = a.records_all;
  }
  turned-IsAccounted front back s h ends a = record {
    queue = a.queue;
    counts_up = turned-IsCounted front back s h ends a.counts_up;
    records_all = a.records_all;
  }
  turned-IsAccounted front back s h (exits e) a = record {
    queue = a.queue;
    counts_up = turned-IsCounted front back s h (exits e) a.counts_up;
    records_all = a.records_all;
  }

  pub Step-IsAccounted : {s t : System J E} → Step s t → IsAccounted s → IsAccounted t
  unfolding receive
  Step-IsAccounted {s} (submits {v} j h e) a =
      let (p, room) = submit_accepts j s.writer v e in
      subst
        (λ v.
          IsAccounted
            (record s { writer = v; submitting = true; accepted = s.accepted ++ (j ∷ []) }))
        (sym p) (submitted-IsAccounted j s h room a)
  Step-IsAccounted {s} (refuses {v} j h e) a =
      subst (λ v. IsAccounted (record s { writer = v })) (sym (submit_refuses j s.writer v e)) a
  Step-IsAccounted {s} (queues h) a =
      let one : held s.submitting ≡ 1 = ap held h in
      record {
        queue = (a.queue.0, a.queue.1, omega (arith, one, a.queue.2));
        counts_up = a.counts_up;
        records_all = a.records_all;
      }
  Step-IsAccounted {s} (closes h) a = record {
    queue = a.queue;
    counts_up = a.counts_up;
    records_all = a.records_all;
  }
  Step-IsAccounted {s} (receives {v} front back j h e) a =
      let (js, p, q) = receive_from_lem s.writer.jobs s.writer v j e in
      subst
        (λ v. IsAccounted (record s {
          writer = v;
          workers = front ++ running j ∷ back;
          received = s.received ++ (j ∷ []);
        }))
        (sym q) (received-IsAccounted front back j js s h p a)
  Step-IsAccounted {s} (records front back j o h m) a = recorded-IsAccounted front back j o s h a
  Step-IsAccounted {s} (turns front back h k) a = turned-IsAccounted front back s h k a

  pub started-IsAccounted : (size n : ℕ) → IsAccounted (started size n)
  started-IsAccounted size n = record {
    queue = (refl, omega arith, refl);
    counts_up = (
      omega (arith, tally-idle_workers busy (at_least_one n) refl),
      omega (arith, tally-idle_workers in_job (at_least_one n) refl),
      omega (arith, tally-idle_workers uncounted (at_least_one n) refl),
    );
    records_all = (refl, refl, refl);
  }

  pub Reach-IsAccounted : {s t : System J E} → Reach s t → IsAccounted s → IsAccounted t
  Reach-IsAccounted here a = a
  Reach-IsAccounted (next r k) a = Step-IsAccounted k (Reach-IsAccounted r a)
