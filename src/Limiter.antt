-- ===== src/Limiter.antt =====
-- internal/limiter/limiter.go: the counting semaphore. A number of permits that is negative is treated as 0
-- is, so that 0 stands for both; the counters are taken not to overflow. What goroutines do to each other
-- while one of them is blocked is in Limiter/Waiting.antt.
pub mod Permits
pub mod Waiting
use mcpcheck.Prelude.{ℕ, ◌+◌, ◌-◌, Bool, true, false, Option, none, some, ltb, if◌then◌else◌, ◌==◌}

pub record Semaphore : Type 0 where
  pub capacity : ℕ
  pub in_flight : ℕ
  pub total_acquired : ℕ
  pub total_waited : ℕ

-- `NewSemaphore`; `none` is its panic.
unfoldable pub new_semaphore : ℕ → Option Semaphore
new_semaphore capacity =
    if ltb capacity 1
    then none
    else some (record { capacity = capacity; in_flight = 0; total_acquired = 0; total_waited = 0 })

-- The two updates that follow a successful test for permits.
abbrev pub take : ℕ → Semaphore → Semaphore
take n s = record s { in_flight = s.in_flight + n; total_acquired = s.total_acquired + n }

-- `TryAcquireN`
unfoldable pub try_acquire_n : ℕ → Semaphore → Semaphore × Bool
try_acquire_n n s =
    if n == 0
    then (s, true)
    else if ltb s.capacity (s.in_flight + n)
    then (s, false)
    else (take n s, true)

-- `TryAcquire`
unfoldable pub try_acquire : Semaphore → Semaphore × Bool
try_acquire s = try_acquire_n 1 s

-- `ReleaseN`; `none` is its panic.
unfoldable pub release_n : ℕ → Semaphore → Option Semaphore
release_n n s =
    if n == 0
    then some s
    else if ltb s.in_flight n
    then none
    else some (record s { in_flight = s.in_flight - n })

-- `Release`
unfoldable pub release : Semaphore → Option Semaphore
release s = release_n 1 s

-- Where a call of `AcquireN` is, `E` being the type of `ctx.Err()`.
pub data Caller (E : Type 0) : Type 0 where
  ready : Bool → Caller E  -- before the loop's test, with `waited`
  committed : Caller E  -- inside the loop behind the test of `ctx`, the lock held
  asleep : Caller E  -- inside `cond.Wait`, the lock dropped
  acquired : Caller E
  over_capacity : Caller E
  cancelled : E → Caller E

-- The guards of `AcquireN` before it takes the lock.
unfoldable pub enter : {E : Type 0} → Option E → ℕ → Semaphore → Caller E
enter ctx n s =
    if n == 0
    then acquired
    else if ltb s.capacity n
    then over_capacity
    else elim ctx [ some e ↦ cancelled e | none ↦ ready false ]

-- The head of the loop of `AcquireN`, and what follows the loop.
unfoldable pub look : {E : Type 0} → Option E → ℕ → Bool → Semaphore → Semaphore × Caller E
look ctx n waited s =
    if ltb s.capacity (s.in_flight + n)
    then (s, elim ctx [ some e ↦ cancelled e | none ↦ committed ])
    else (
      record (take n s) { total_waited = if waited then s.total_waited + 1 else s.total_waited },
      acquired,
    )

-- `AcquireN` up to its end or its first wait.
unfoldable pub acquire_n : {E : Type 0} → Option E → ℕ → Semaphore → Semaphore × Caller E
acquire_n ctx n s = elim (enter ctx n s) [ ready waited ↦ look ctx n waited s | done ↦ (s, done) ]

-- `Run` where its `Acquire` does not have to wait: `none` is a call that waits, or the panic of `Release`.
-- The operation is given the semaphore and leaves it as other goroutines have made it by its end.
pub data Ran (E : Type 0) : Type 0 where
  refused : E → Ran E
  too_many : Ran E
  returned : Option E → Ran E

-- The deferred `Release` of `Run`.
abbrev pub give_back : {E : Type 0} → Option Semaphore → Option E → Option (Semaphore × Ran E)
give_back none result = none
give_back (some s) result = some (s, returned result)

abbrev pub run_after :
    {E : Type 0}
    → (Semaphore → Semaphore × Option E)
    → Semaphore
    → Caller E
    → Option (Semaphore × Ran E)
run_after fn s acquired = give_back (release (fn s).0) (fn s).1
run_after fn s over_capacity = some (s, too_many)
run_after fn s (cancelled e) = some (s, refused e)
run_after fn s _ = none

unfoldable pub run_with :
    {E : Type 0}
    → Option E
    → (Semaphore → Semaphore × Option E)
    → Semaphore
    → Option (Semaphore × Ran E)
run_with ctx fn s = let (s', caller) = acquire_n ctx 1 s in run_after fn s' caller

-- `Stats`
pub record Stats : Type 0 where
  pub total_acquired : ℕ
  pub total_waited : ℕ

unfoldable pub stats : Semaphore → Stats
stats s = record { total_acquired = s.total_acquired; total_waited = s.total_waited }
