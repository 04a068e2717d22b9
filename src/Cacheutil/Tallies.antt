-- ===== src/Cacheutil/Tallies.antt =====
-- How many workers are how far in a round.
use mcpcheck.Prelude.{ℕ, zero, suc, ◌+◌, ◌≤◌, ◌≡◌, refl, ap, List, [], ◌∷◌, ◌++◌, length, arith}
use mcpcheck.Cacheutil.{Phase, waiting, running, recorded, counted, exited}
use mcpcheck.Cacheutil.Workers.{idle_workers}

module _ {J : Type 0} where
  -- The rounds in which the job has not returned, has not been counted, and has not been taken off `jobsWG`.
  abbrev pub in_job : Phase J → ℕ
  in_job waiting = 0
  in_job (running _) = 1
  in_job recorded = 0
  in_job counted = 0
  in_job exited = 0

  abbrev pub uncounted : Phase J → ℕ
  uncounted waiting = 0
  uncounted (running _) = 1
  uncounted recorded = 1
  uncounted counted = 0
  uncounted exited = 0

  abbrev pub busy : Phase J → ℕ
  busy waiting = 0
  busy (running _) = 1
  busy recorded = 1
  busy counted = 1
  busy exited = 0

  abbrev pub gone : Phase J → ℕ
  gone waiting = 0
  gone (running _) = 0
  gone recorded = 0
  gone counted = 0
  gone exited = 1

  abbrev pub each : Phase J → ℕ
  each p = 1

  -- How many turns are left in a round, with the one to exit.
  abbrev pub turns_left : Phase J → ℕ
  turns_left waiting = 1
  turns_left (running _) = 4
  turns_left recorded = 3
  turns_left counted = 2
  turns_left exited = 0

  abbrev pub tally : (Phase J → ℕ) → List (Phase J) → ℕ
  tally f [] = 0
  tally f (p ∷ ps) = f p + tally f ps

  tally-middle :
      (f : Phase J → ℕ) (front : List (Phase J)) (p : Phase J) (back : List (Phase J))
      → tally f (front ++ p ∷ back) ≡ f p + tally f (front ++ back)
  tally-middle f [] p back = refl
  tally-middle f (q ∷ front) p back = omega (arith, tally-middle f front p back)

  -- The list is counted before and after one worker's phase has changed.
  pub tally_change :
      (f : Phase J → ℕ) (ps front back : List (Phase J)) (p q : Phase J)
      → ps ≡ front ++ p ∷ back
      → tally f (front ++ q ∷ back) + f p ≡ tally f ps + f q
  tally_change f ps front back p q e =
      omega (arith, ap (tally f) e, tally-middle f front p back, tally-middle f front q back)

  pub tally-idle_workers : (f : Phase J → ℕ) (n : ℕ) → f waiting ≡ 0 → tally f (idle_workers n) ≡ 0
  tally-idle_workers f zero h = refl
  tally-idle_workers f (suc n) h = omega (arith, h, tally-idle_workers f n h)

  pub in_job_le : (ps : List (Phase J)) → tally in_job ps ≤ tally busy ps
  in_job_le [] = omega arith
  in_job_le (p ∷ ps) = omega (arith, in_job_le ps, phase_le p)
    where
      phase_le : (p : Phase J) → in_job p ≤ busy p
      phase_le waiting = omega arith
      phase_le (running j) = omega arith
      phase_le recorded = omega arith
      phase_le counted = omega arith
      phase_le exited = omega arith

  pub uncounted_le : (ps : List (Phase J)) → tally uncounted ps ≤ tally busy ps
  uncounted_le [] = omega arith
  uncounted_le (p ∷ ps) = omega (arith, uncounted_le ps, phase_le p)
    where
      phase_le : (p : Phase J) → uncounted p ≤ busy p
      phase_le waiting = omega arith
      phase_le (running j) = omega arith
      phase_le recorded = omega arith
      phase_le counted = omega arith
      phase_le exited = omega arith

  pub no_items : (js : List J) → length js ≡ 0 → js ≡ []
  no_items [] e = refl
  no_items (j ∷ js) e = absurd (omega arith)
