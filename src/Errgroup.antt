-- ===== src/Errgroup.antt =====
-- internal/errgroup/errgroup.go, over the semaphore of internal/limiter. `E` is the type of errors and `wrap`
-- the text that `acquire` puts before one.
pub mod Concurrency
pub mod Errors
use mcpcheck.Prelude.{
  ℕ, zero, suc, ◌+◌, ◌-◌, Bool, true, false, not, ◌&&◌, List, [], ◌∷◌, Option, none, some, ltb,
  ◌==◌, if◌then◌else◌,
}
use mcpcheck.Limiter.{
  Semaphore, new_semaphore, Caller, ready, committed, asleep, acquired, over_capacity, cancelled,
  acquire_n, look, try_acquire, release,
}

-- `Group`: its limiter, the goroutines that it counts, its first error, and the cause of its context.
pub record Group (E : Type 0) : Type 0 where
  pub limiter : Option Semaphore
  pub running : ℕ
  pub error : Option E
  pub cause : Option E

-- `WithContext`
abbrev pub with_context : {E : Type 0} → Option E → Group E
with_context parent = record { limiter = none; running = 0; error = none; cause = parent }

-- `assertIdle`: whether it returns.
abbrev pub is_idle : Option Semaphore → Bool
is_idle none = true
is_idle (some s) = not (ltb 0 s.in_flight)

-- `SetLimit`, 0 being a number that is not positive; `none` is its panic.
unfoldable pub set_limit : {E : Type 0} → ℕ → Group E → Option (Group E)
set_limit n g =
    if is_idle g.limiter
    then some (record g { limiter = if n == 0 then none else new_semaphore n })
    else none

-- `cancel(err)`: the first cause stays.
abbrev pub or_else : {E : Type 0} → Option E → E → Option E
or_else none e = some e
or_else (some d) e = some d

-- `recordErr`
abbrev pub record_first : {E : Type 0} → E → Option E → Group E → Group E
record_first e none g = record g { error = some e; cause = or_else g.cause e }
record_first e (some d) g = g

unfoldable pub record_err : {E : Type 0} → E → Group E → Group E
record_err e g = record_first e g.error g

-- The end of `Go` where a permit was taken, and the start of its goroutine.
abbrev pub spawn : {E : Type 0} → Option Semaphore → Group E → Group E
spawn limiter g = record g { limiter = limiter; running = g.running + 1 }

module _ {E : Type 0} (wrap : E → E) (too_many : E) where
  -- What `Go` does when `Acquire` returns; `none` is a call that waits.
  abbrev pub admit_caller : Group E → Semaphore → Caller E → Option (Group E × Bool)
  admit_caller g s acquired = some (spawn (some s) g, true)
  admit_caller g s over_capacity = some (record_err (wrap too_many) g, false)
  admit_caller g s (cancelled e) = some (record_err (wrap e) g, false)
  admit_caller g s (ready waited) = none
  admit_caller g s committed = none
  admit_caller g s asleep = none

  abbrev pub go_with : Option Semaphore → Group E → Option (Group E × Bool)
  go_with none g = some (spawn none g, true)
  go_with (some s) g = let (s', caller) = acquire_n g.cause 1 s in admit_caller g s' caller

  -- `Go`: whether a goroutine was started.
  unfoldable pub go : Group E → Option (Group E × Bool)
  go g = go_with g.limiter g

  abbrev pub resume_with : Option Semaphore → Group E → Option (Group E × Bool)
  resume_with none g = none
  resume_with (some s) g = let (s', caller) = look g.cause 1 true s in admit_caller g s' caller

  -- A `Go` that was waiting and looks again.
  unfoldable pub resume : Group E → Option (Group E × Bool)
  resume g = resume_with g.limiter g

abbrev pub try_admitted : {E : Type 0} → Group E → Semaphore × Bool → Group E × Bool
try_admitted g (s, true) = (spawn (some s) g, true)
try_admitted g (s, false) = (g, false)

abbrev pub try_with : {E : Type 0} → Option Semaphore → Group E → Group E × Bool
try_with none g = (spawn none g, true)
try_with (some s) g = try_admitted g (try_acquire s)

-- `TryGo`
unfoldable pub try_go : {E : Type 0} → Group E → Group E × Bool
try_go g = try_with g.limiter g

-- The deferred `release` of `run`; `none` is the panic of `Release`.
abbrev pub released : {E : Type 0} → Group E → Option Semaphore → Option (Group E)
released g none = none
released g (some s) = some (record g { limiter = some s; running = g.running - 1 })

abbrev pub release_with : {E : Type 0} → Option Semaphore → Group E → Option (Group E)
release_with none g = some (record g { running = g.running - 1 })
release_with (some s) g = released g (release s)

abbrev pub record_result : {E : Type 0} → Option E → Group E → Group E
record_result none g = g
record_result (some e) g = record_err e g

-- The end of `run` by what `fn` returned.
unfoldable pub finish : {E : Type 0} → Option E → Group E → Option (Group E)
finish result g = release_with g.limiter (record_result result g)

-- The parent's context ends.
abbrev pub cancel : {E : Type 0} → E → Group E → Group E
cancel e g = record g { cause = or_else g.cause e }
