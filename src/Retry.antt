-- ===== src/Retry.antt =====
-- internal/retry/retry.go: the loop of `Do`. The operation, the context, the policy's predicate and the
-- sleeper are what each of their calls returns: a function of the attempt. The arithmetic of float64 in
-- `computeDelay` is a parameter.
pub mod Attempts
pub mod Delays
use mcpcheck.Prelude.{
  ℕ, zero, suc, ◌+◌, ◌-◌, Bool, true, false, List, [], ◌∷◌, Option, none, some, if◌then◌else◌, ◌==◌,
}

-- The float64 operations that `computeDelay` uses, on times in nanoseconds.
pub record Floats : Type 1 where
  pub F : Type 0
  pub of_ns : ℕ → F
  pub times : F → F → F
  pub ge : F → F → Bool
  pub two : F
  pub jitter : F → F  -- the offset of a random number, not below 0
  pub to_ns : F → ℕ

-- `Policy`, with 0 for a number that is not positive; `none` is a multiplier that is not.
pub record Policy (F : Type 0) : Type 0 where
  pub max_attempts : ℕ
  pub base_delay : ℕ
  pub max_delay : ℕ
  pub multiplier : Option F
  pub has_jitter : Bool

abbrev pub or_default : ℕ → ℕ → ℕ
or_default n m = if n == 0 then m else n

-- `maxAttempts`, `baseDelay`, `maxDelay`
unfoldable pub attempts_of : {F : Type 0} → Policy F → ℕ
attempts_of p = or_default p.max_attempts 3

unfoldable pub base_of : {F : Type 0} → Policy F → ℕ
base_of p = or_default p.base_delay 100000000

unfoldable pub cap_of : {F : Type 0} → Policy F → ℕ
cap_of p = or_default p.max_delay 5000000000

module _ (f : Floats) where
  open f use {F, of_ns, times, ge, two, jitter, to_ns}

  -- `multiplier`
  abbrev pub multiplier_of : Option F → F
  multiplier_of none = two
  multiplier_of (some x) = x

  -- The loop of `computeDelay`, by the rounds that are left.
  unfoldable pub grow : F → F → ℕ → F → F
  grow by cap zero base = base
  grow by cap (suc n) base =
      let next = times base by in let rest = grow by cap n next in if ge next cap then cap else rest

  abbrev pub jittered : Bool → F → F
  jittered has_jitter base = if has_jitter then jitter base else base

  -- `computeDelay`
  unfoldable pub compute_delay : Policy F → ℕ → ℕ
  compute_delay p attempt = to_ns (
      jittered p.has_jitter
        (grow (multiplier_of p.multiplier) (of_ns (cap_of p)) (attempt - 1) (of_ns (base_of p))))

-- What the code that `Do` calls returns at an attempt; an error is an `E`.
pub record Environment (E : Type 0) : Type 0 where
  pub ctx : ℕ → Option E
  pub op : ℕ → Option E
  pub retryable : E → Bool
  pub sleep : ℕ → ℕ → Option E

-- What `Do` returns.
pub data Outcome (E : Type 0) : Type 0 where
  succeeded : Outcome E
  stopped : E → Outcome E  -- the context's error before an attempt
  refused : E → Outcome E  -- an error that is not retried
  interrupted : E → Outcome E  -- the sleeper's error
  exhausted : ℕ → E → Outcome E
  no_attempts : Outcome E

-- The outcome, the number of calls of the operation, and the delays that were slept.
pub record Run (E : Type 0) : Type 0 where
  pub outcome : Outcome E
  pub calls : ℕ
  pub delays : List ℕ

abbrev pub slept : {E : Type 0} → ℕ → Run E → Run E
slept delay r = record r { delays = delay ∷ r.delays }

module _ {E : Type 0} (env : Environment E) (delay : ℕ → ℕ) (limit : ℕ) where
  -- What follows the failure of an attempt that is not the last.
  abbrev pub after_sleep : ℕ → ℕ → Option E → Run E → Run E
  after_sleep attempt d none rest = slept d rest
  after_sleep attempt d (some e) rest = record {
    outcome = interrupted e;
    calls = attempt;
    delays = d ∷ [];
  }

  abbrev pub after_failure : ℕ → E → Run E → Run E
  after_failure attempt e rest =
      if attempt == limit
      then record { outcome = exhausted limit e; calls = attempt; delays = [] }
      else if env.retryable e
      then after_sleep attempt (delay attempt) (env.sleep attempt (delay attempt)) rest
      else record { outcome = refused e; calls = attempt; delays = [] }

  abbrev pub after_op : ℕ → Option E → Run E → Run E
  after_op attempt none rest = record { outcome = succeeded; calls = attempt; delays = [] }
  after_op attempt (some e) rest = after_failure attempt e rest

  abbrev pub after_check : ℕ → Option E → Run E → Run E
  after_check attempt (some e) rest = record {
    outcome = stopped e;
    calls = attempt - 1;
    delays = [];
  }
  after_check attempt none rest = after_op attempt (env.op attempt) rest

  -- The loop of `Do` from an attempt on, by the attempts that are left.
  unfoldable pub attempt_from : ℕ → ℕ → Run E
  attempt_from attempt zero = record { outcome = no_attempts; calls = attempt - 1; delays = [] }
  attempt_from attempt (suc n) =
      after_check attempt (env.ctx attempt) (attempt_from (attempt + 1) n)

-- `Do`
unfoldable pub do_retry : {E : Type 0} (f : Floats) → Policy f.F → Environment E → Run E
do_retry f p env = attempt_from env (compute_delay f p) (attempts_of p) 1 (attempts_of p)
