-- ===== src/Tests/Breaker.antt =====
-- The circuit breaker at the states of one trip and one failed probe.
use mcpcheck.Prelude.{ℕ, ◌+◌, ◌≡◌, refl, true, false, none, some}
use mcpcheck.CircuitBreaker.{
  closed, open_state, half_open, Config, Breaker, complete, new, allow, record_result, reset,
  do_call,
}
use mcpcheck.CircuitBreaker.Invariant.{complete-IsComplete, Inv, IsNext, do_call-refines}
use mcpcheck.CircuitBreaker.Machine.{
  System, start, begins, here, next, call, idle, SystemInv, Reach-SystemInv, IsWedged,
  IsWedged-forever, listener_reset_lost,
}

-- The threshold and the cooldown are 2 and 10; errors are numbers.
abbrev small : Config ℕ
small = complete (record { threshold = 2; cooldown = 10; is_failure = none })

abbrev tripped_at_five : Breaker
tripped_at_five = record new { state = open_state; failures = 2; opened_at = 5 }

abbrev probed : Breaker
probed = record new { state = half_open; failures = 2; opened_at = 5 }

do_call-refines_example :
    IsNext small 20 21
      (some 7)
      tripped_at_five
      (do_call small (λ x. x) (λ x. x) (λ x. x) none 20 21 (some 7) tripped_at_five)
do_call-refines_example =
    do_call-refines small (λ x. x) (λ x. x) (λ x. x) 20 21 (some 7) tripped_at_five (λ x. refl)
      (λ x. refl) (λ x. refl)

admitted : (allow small (λ x. x) 3 start.breaker).1 ≡ true
unfolding allow new start
admitted = refl

abbrev one_running : System
one_running = record start {
  breaker = (allow small (λ x. x) 3 start.breaker).0;
  running = start.running + 1;
}

Reach-SystemInv_example : SystemInv small one_running
Reach-SystemInv_example =
    Reach-SystemInv small
      (complete-IsComplete (record { threshold = 2; cooldown = 10; is_failure = none }))
      (next here (call (begins 3 admitted)))

abbrev probe_lost : System
probe_lost = record { breaker = probed; running = 0; rejecting = 0; recorded = 2; panicked = 1 }

IsWedged-forever_example :
    IsWedged small probe_lost × ((allow small (λ x. x) 1000 probe_lost.breaker).1 ≡ false)
IsWedged-forever_example =
    IsWedged-forever small 1000 (record { waiting = refl; nobody = refl }) idle

abbrev two_running : System
two_running = record { breaker = probed; running = 2; rejecting = 0; recorded = 2; panicked = 0 }

nil_is_no_failure : small.is_failure none ≡ false
unfolding complete
nil_is_no_failure = refl

an_error_is_a_failure : small.is_failure (some 7) ≡ true
unfolding complete
an_error_is_a_failure = refl

listener_reset_lost_example :
    let b' = record_result small (reset (λ x. x)) 30 (some 7) probed in
    (b'.state ≡ closed) × (b'.failures ≡ small.threshold) × (¬ Inv small b')
listener_reset_lost_example =
    listener_reset_lost small 30 (some 7) probed refl an_error_is_a_failure
