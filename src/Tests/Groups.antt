-- ===== src/Tests/Groups.antt =====
-- A group of goroutines whose errors are numbers.
use mcpcheck.Prelude.{ℕ, ◌+◌, ◌≤◌, refl, true, none, some, arith}
use mcpcheck.Limiter.{new_semaphore, acquire_n, enter, look, release, release_n}
use mcpcheck.Errgroup.{Group, with_context, set_limit, go, finish, record_err}
use mcpcheck.Errgroup.Concurrency.{goes, ends, Reach, here, next, limited, Reach-le}

abbrev wrapped : ℕ → ℕ
wrapped e = e + 100

abbrev two_slots : Group ℕ
two_slots = limited 2 none

-- One goroutine has started, then failed with 7.
abbrev one_runs : Group ℕ
one_runs = record {
  limiter = some (record { capacity = 2; in_flight = 1; total_acquired = 1; total_waited = 0 });
  running = 1;
  error = none;
  cause = none;
}

abbrev one_failed : Group ℕ
one_failed = record {
  limiter = some (record { capacity = 2; in_flight = 0; total_acquired = 1; total_waited = 0 });
  running = 0;
  error = some 7;
  cause = some 7;
}

reaches_failed : Reach wrapped 99 two_slots one_failed
unfolding go acquire_n enter look finish release release_n record_err
reaches_failed = next (next here (goes {h = one_runs} true refl)) (ends (some 7) (omega arith) refl)

group_example : one_failed.running ≤ 2
unfolding set_limit new_semaphore
group_example = Reach-le wrapped 99 2 none {g = two_slots} (omega arith) refl reaches_failed

-- A group without a limiter after its context's end.
abbrev done_group : Group ℕ
done_group = record (with_context none) { cause = some 5 }
