-- ===== src/Cacheutil/Drained.antt =====
-- What `Flush` waits for.
use mcpcheck.Prelude.{
  ℕ, ◌≡◌, refl, sym, ap, ◌∙◌, List, [], ◌∷◌, ◌++◌, append_assoc, append-nil, some, length, arith,
}
use mcpcheck.Cacheutil.{Outcome, flush}
use mcpcheck.Cacheutil.Outcomes.{errors_of, errors_of-append, written_of}
use mcpcheck.Cacheutil.Tallies.{no_items, busy, tally, in_job_le, uncounted_le}
use mcpcheck.Cacheutil.Workers.{
  System, started, Step, submits, refuses, queues, closes, receives, records, turns, Reach, here,
  next,
}
use mcpcheck.Cacheutil.Accounts.{started-IsAccounted, Reach-IsAccounted}

module _ {J E : Type 0} where
  -- What has been recorded stays, and more comes behind it.
  abbrev Extends : System J E → System J E → Type 0
  Extends s t = (more : List (Outcome E)) × (t.outcomes ≡ s.outcomes ++ more)

  Step-Extends : {s t : System J E} → Step s t → Extends s t
  Step-Extends {s} (records front back j o h m) = (o ∷ [], refl)
  Step-Extends {s} (submits j h e) = ([], sym (append-nil s.outcomes))
  Step-Extends {s} (refuses j h e) = ([], sym (append-nil s.outcomes))
  Step-Extends {s} (queues h) = ([], sym (append-nil s.outcomes))
  Step-Extends {s} (closes h) = ([], sym (append-nil s.outcomes))
  Step-Extends {s} (receives front back j h e) = ([], sym (append-nil s.outcomes))
  Step-Extends {s} (turns front back h k) = ([], sym (append-nil s.outcomes))

  Reach-Extends : {s t : System J E} → Reach s t → Extends s t
  Reach-Extends {s} here = ([], sym (append-nil s.outcomes))
  Reach-Extends {s} (next r k) =
      let (xs, p) = Reach-Extends r in
      let (ys, q) = Step-Extends k in
      (xs ++ ys, q ∙ ap (λ z. z ++ ys) p ∙ append_assoc s.outcomes xs ys)

  Reach-append : {s t v : System J E} → Reach s t → Reach t v → Reach s v
  Reach-append r here = r
  Reach-append r (next q k) = next (Reach-append r q) k

  -- In whatever way calls of `Submit` and `Close` and the rounds of the workers follow each other from
  -- `NewAsyncWriter`, and while `Flush` is between its wait and its read: in the state `s` in which the wait
  -- ends, each job that has been accepted has been received, once and in the order of the calls, none is left
  -- in the queue, as many outcomes have been recorded and as many jobs counted as completed; the count of failed
  -- jobs is that of their errors, and the count of bytes the sum of what they have written. The errors that
  -- `Flush` returns from a later state `t` are those of all these outcomes, and behind them of the outcomes
  -- that came between.
  pub drained :
      (size n : ℕ) {s t : System J E} {errors : List E}
      → Reach (started size n) s
      → Reach s t
      → flush s.writer t.writer ≡ some errors
      → (s.received ≡ s.accepted)
        × (s.writer.jobs ≡ [])
        × (s.writer.completed ≡ length s.accepted)
        × (length s.outcomes ≡ length s.accepted)
        × (s.writer.failed ≡ length (errors_of s.outcomes))
        × (s.writer.bytes ≡ written_of s.outcomes)
        × ((between : List (Outcome E)) × (t.outcomes ≡ s.outcomes ++ between)
            × (errors ≡ errors_of s.outcomes ++ errors_of between))
  drained size n {s} {t} {errors} r later e =
      let a = Reach-IsAccounted r (started-IsAccounted size n) in
      let d = Reach-IsAccounted (Reach-append r later) (started-IsAccounted size n) in
      let none_left : s.writer.pending ≡ 0 = ground (arith, e) in
      let (p, b, c) = a.counts_up in
      let idle : tally busy s.workers ≡ 0 = omega (arith, p, none_left) in
      let no_jobs : length s.writer.jobs ≡ 0 = omega (arith, p, none_left) in
      let empty = no_items s.writer.jobs no_jobs in
      let all : s.received ≡ s.accepted =
        sym (append-nil s.received) ∙ ap (λ z. s.received ++ z) (sym empty) ∙ a.queue.0 in
      let kept : t.writer.first_err ≡ errors = ground (arith, e) in
      let (between, x) = Reach-Extends later in
      (
        all,
        empty,
        omega (arith, c, idle, uncounted_le s.workers, ap length all),
        omega (arith, b, idle, in_job_le s.workers, ap length all),
        a.records_all.1,
        a.records_all.2,
        (
          between,
          x,
          sym kept ∙ d.records_all.0 ∙ ap errors_of x ∙ errors_of-append s.outcomes between,
        ),
      )
