-- ===== src/CircuitBreaker.antt =====
-- internal/circuitbreaker/circuitbreaker.go. Time is a number of nanoseconds, an argument of each call;
-- the counters are taken not to reach 2^63. `OnStateChange` is called with the lock dropped: the states
-- between are in CircuitBreaker/Machine.antt.
pub mod Invariant
pub mod Machine
use mcpcheck.Prelude.{
  ℕ, suc, ◌+◌, ◌-◌, ◌≡◌, Bool, true, false, Option, none, some, ltb, leb, if◌then◌else◌, ◌==◌,
}

pub data State : Type 0 where
  closed open_state half_open : State

-- `Config` as `New` completes it. `is_failure` is applied to the error that the operation returned, nil
-- being `none`; `E` is the type of errors.
pub record Config (E : Type 0) : Type 0 where
  pub threshold : ℕ
  pub cooldown : ℕ
  pub is_failure : Option E → Bool

-- A field that the caller leaves out, or gives as a number that is not positive, is `0` or `none` here.
pub record RawConfig (E : Type 0) : Type 0 where
  pub threshold : ℕ
  pub cooldown : ℕ
  pub is_failure : Option (Option E → Bool)

pub record Breaker : Type 0 where
  pub state : State
  pub failures : ℕ
  pub opened_at : ℕ
  pub total_calls : ℕ
  pub total_failures : ℕ
  pub total_short_circ : ℕ
  pub transitions : ℕ

abbrev is_error : {E : Type 0} → Option E → Bool
is_error none = false
is_error (some _) = true

abbrev or_default {ℓ} : {A : Type ℓ} → A → Option A → A
or_default d none = d
or_default d (some a) = a

abbrev pub default_threshold : ℕ
default_threshold = 5

-- 30 * time.Second
abbrev pub default_cooldown : ℕ
default_cooldown = 30000000000

-- `New`
unfoldable pub complete : {E : Type 0} → RawConfig E → Config E
complete raw = record {
  threshold = if raw.threshold == 0 then default_threshold else raw.threshold;
  cooldown = if raw.cooldown == 0 then default_cooldown else raw.cooldown;
  is_failure = or_default is_error raw.is_failure;
}

unfoldable pub new : Breaker
new = record {
  state = closed;
  failures = 0;
  opened_at = 0;
  total_calls = 0;
  total_failures = 0;
  total_short_circ = 0;
  transitions = 0;
}

abbrev pub same_state : State → State → Bool
same_state closed closed = true
same_state open_state open_state = true
same_state half_open half_open = true
same_state _ _ = false

-- `transition`. With a listener the lock is dropped around its call: `between` is what the listener and
-- other goroutines do to the breaker meanwhile, and it is the identity where there is none.
unfoldable pub transition : (Breaker → Breaker) → State → Breaker → Breaker
transition between to b =
    if same_state b.state to
    then b
    else between (record b { state = to; transitions = b.transitions + 1 })

module _ {E : Type 0} (cfg : Config E) (between : Breaker → Breaker) (now : ℕ) where
  -- The `switch` of `allow`. Subtraction stops at 0, where Go's difference is negative: both are below the
  -- cooldown, which is positive.
  unfoldable pub admit : State → Breaker → Breaker × Bool
  admit closed b = (b, true)
  admit open_state b =
      if ltb (now - b.opened_at) cfg.cooldown
      then (b, false)
      else (transition between half_open b, true)
  admit half_open b = (b, false)

  unfoldable pub allow : Breaker → Breaker × Bool
  unfolding admit transition
  allow b = admit b.state (record b { total_calls = b.total_calls + 1 })

  -- The `switch` of `recordResult`.
  unfoldable pub settle : State → Bool → Breaker → Breaker
  settle closed false b = record b { failures = 0 }
  settle closed true b =
      if leb cfg.threshold (b.failures + 1)
      then transition between open_state (record b { failures = b.failures + 1; opened_at = now })
      else record b { failures = b.failures + 1 }
  settle half_open true b =
      let b' = transition between open_state (record b { opened_at = now }) in
      record b' { failures = cfg.threshold }
  settle half_open false b = transition between closed (record b { failures = 0 })
  settle open_state failed b = b

  unfoldable pub record_result : Option E → Breaker → Breaker
  unfolding settle transition
  record_result err b =
      let failed = cfg.is_failure err in
      settle b.state failed
        (record b { total_failures = if failed then b.total_failures + 1 else b.total_failures })

-- `Reset`. The zero `time.Time` is 0.
unfoldable pub reset : (Breaker → Breaker) → Breaker → Breaker
unfolding transition
reset between b = transition between closed (record b { failures = 0; opened_at = 0 })

-- The second critical section of `Do` for a rejected call.
unfoldable pub count_short_circuit : Breaker → Breaker
count_short_circuit b = record b { total_short_circ = b.total_short_circ + 1 }

pub data Outcome (E : Type 0) : Type 0 where
  cancelled : E → Outcome E  -- `ctx.Err()`, before anything is counted
  err_open : Outcome E
  ran : Option E → Outcome E

-- `Do`. `ctx` is `ctx.Err()`, `result` what the operation returns, and the two times are those at which `allow`
-- and `recordResult` read the clock. `opening` and `settling` are what happens to the breaker while the lock is
-- dropped around the listener in `allow` and in `recordResult`, and `others` what happens to it between the two
-- critical sections; each is the identity where there is no listener and no other call.
unfoldable pub do_call :
    {E : Type 0}
    → Config E
    → (Breaker → Breaker)
    → (Breaker → Breaker)
    → (Breaker → Breaker)
    → Option E
    → ℕ
    → ℕ
    → Option E
    → Breaker
    → Breaker × Outcome E
unfolding allow record_result count_short_circuit
do_call cfg opening others settling (some e) start finish result b = (b, cancelled e)
do_call cfg opening others settling none start finish result b =
    let (b', admitted) = allow cfg opening start b in
    if admitted
    then (record_result cfg settling finish result (others b'), ran result)
    else (count_short_circuit (others b'), err_open)

-- `Stats`
pub record Stats : Type 0 where
  pub state : State
  pub failures : ℕ
  pub total_calls : ℕ
  pub total_failures : ℕ
  pub total_short_circuits : ℕ
  pub transitions : ℕ

unfoldable pub stats : Breaker → Stats
stats b = record {
  state = b.state;
  failures = b.failures;
  total_calls = b.total_calls;
  total_failures = b.total_failures;
  total_short_circuits = b.total_short_circ;
  transitions = b.transitions;
}
