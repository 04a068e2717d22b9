-- ===== src/Tests/Attempts.antt =====
-- Retries of an operation that succeeds at its third call.
use mcpcheck.Prelude.{ℕ, ◌*◌, ◌≡◌, refl, true, false, [], ◌∷◌, none, some, leb, if◌then◌else◌}
use mcpcheck.Retry.{
  Floats, Policy, attempts_of, base_of, cap_of, compute_delay, grow, Environment, succeeded,
  do_retry, attempt_from,
}
use mcpcheck.Retry.Attempts.{Explains, do_retry-Explains}

-- Whole nanoseconds.
abbrev whole : Floats
whole = record {
  F = ℕ;
  of_ns = λ n. n;
  times = λ a b. a * b;
  ge = λ a b. leb b a;
  two = 2;
  jitter = λ n. n;
  to_ns = λ n. n;
}

abbrev policy : Policy ℕ
policy = record {
  max_attempts = 5;
  base_delay = 30;
  max_delay = 20;
  multiplier = none;
  has_jitter = false;
}

abbrev flaky : Environment ℕ
flaky = record {
  ctx = λ _. none;
  op = λ n. if leb n 2 then some n else none;
  retryable = λ _. true;
  sleep = λ _ _. none;
}

flaky_run :
    do_retry whole policy flaky ≡ record { outcome = succeeded; calls = 3; delays = 30 ∷ 20 ∷ [] }
unfolding do_retry attempt_from attempts_of compute_delay grow base_of cap_of
flaky_run = refl

do_retry_example :
    Explains flaky (compute_delay whole policy) (attempts_of policy) 1 (do_retry whole policy flaky)
do_retry_example = do_retry-Explains whole policy flaky
