-- ===== src/CircuitBreaker/Machine.antt =====
-- Many goroutines in one breaker: each critical section of `Do` is a step, and so is the end of an operation
-- that panics, after which `Do` records nothing.
use mcpcheck.Prelude.{ℕ, ◌+◌, ◌-◌, ◌<◌, ◌≡◌, true, false, Option, arith}
use mcpcheck.CircuitBreaker.{
  closed, half_open, Config, Breaker, new, allow, record_result, reset, count_short_circuit,
}
use mcpcheck.CircuitBreaker.Invariant.{
  IsComplete, Inv, new-Inv, allow-Inv, record_result-Inv, reset-Inv,
}

-- The breaker, and how many calls are at each point of `Do`.
pub record System : Type 0 where
  pub breaker : Breaker
  pub running : ℕ  -- admitted, the operation has not returned
  pub rejecting : ℕ  -- rejected, not yet counted
  pub recorded : ℕ
  pub panicked : ℕ

unfoldable pub start : System
start = record { breaker = new; running = 0; rejecting = 0; recorded = 0; panicked = 0 }

module _ {E : Type 0} (cfg : Config E) where
  pub data CallStep (s : System) : System → Type 0 where
    begins :
        (now : ℕ)
        → (allow cfg (λ x. x) now s.breaker).1 ≡ true
        → CallStep s
            (record s { breaker = (allow cfg (λ x. x) now s.breaker).0; running = s.running + 1 })
    refused :
        (now : ℕ)
        → (allow cfg (λ x. x) now s.breaker).1 ≡ false
        → CallStep s (record s {
          breaker = (allow cfg (λ x. x) now s.breaker).0;
          rejecting = s.rejecting + 1;
        })
    counted :
        0 < s.rejecting
        → CallStep s
            (record s { breaker = count_short_circuit s.breaker; rejecting = s.rejecting - 1 })
    returned :
        (now : ℕ) (err : Option E)
        → 0 < s.running
        → CallStep s (record s {
          breaker = record_result cfg (λ x. x) now err s.breaker;
          running = s.running - 1;
          recorded = s.recorded + 1;
        })
    panics :
        0 < s.running → CallStep s (record s { running = s.running - 1; panicked = s.panicked + 1 })

  pub data Step (s t : System) : Type 0 where
    call : CallStep s t → Step s t
    resets : t ≡ record s { breaker = reset (λ x. x) s.breaker } → Step s t

  pub data Reach (s : System) : System → Type 0 where
    here : Reach s s
    next : {t v : System} → Reach s t → Step t v → Reach s v

  -- A run in which nobody calls `Reset`.
  pub data Calls (s : System) : System → Type 0 where
    idle : Calls s s
    then_call : {t v : System} → Calls s t → CallStep t v → Calls s v

  pub record SystemInv (s : System) : Type 0 where
    pub counted : Inv cfg s.breaker
    pub accounted :
        s.breaker.total_calls
        ≡ s.running + s.recorded + s.panicked + s.rejecting + s.breaker.total_short_circ

  allow-counters :
      (now : ℕ) (b : Breaker)
      → ((allow cfg (λ x. x) now b).0.total_calls ≡ b.total_calls + 1)
        × ((allow cfg (λ x. x) now b).0.total_short_circ ≡ b.total_short_circ)
  unfolding allow
  allow-counters now b = ground arith

  record_result-counters :
      (now : ℕ) (err : Option E) (b : Breaker)
      → ((record_result cfg (λ x. x) now err b).total_calls ≡ b.total_calls)
        × ((record_result cfg (λ x. x) now err b).total_short_circ ≡ b.total_short_circ)
  unfolding record_result
  record_result-counters now err b = ground arith

  reset-counters :
      (b : Breaker)
      → ((reset (λ x. x) b).total_calls ≡ b.total_calls)
        × ((reset (λ x. x) b).total_short_circ ≡ b.total_short_circ)
  unfolding reset
  reset-counters b = ground arith

  module _ (c : IsComplete cfg) where
    CallStep-SystemInv : {s t : System} → CallStep s t → SystemInv s → SystemInv t
    unfolding count_short_circuit
    CallStep-SystemInv {s} (begins now h) v = record {
      counted = allow-Inv cfg c now s.breaker v.counted;
      accounted = omega (arith, allow-counters now s.breaker, v.accounted);
    }
    CallStep-SystemInv {s} (refused now h) v = record {
      counted = allow-Inv cfg c now s.breaker v.counted;
      accounted = omega (arith, allow-counters now s.breaker, v.accounted);
    }
    CallStep-SystemInv {s} (counted h) v = record {
      counted = v.counted;
      accounted = omega (arith, v.accounted);
    }
    CallStep-SystemInv {s} (returned now err h) v = record {
      counted = record_result-Inv cfg c now err s.breaker v.counted;
      accounted = omega (arith, record_result-counters now err s.breaker, v.accounted);
    }
    CallStep-SystemInv {s} (panics h) v = record {
      counted = v.counted;
      accounted = omega (arith, v.accounted);
    }

    Step-SystemInv : {s t : System} → Step s t → SystemInv s → SystemInv t
    Step-SystemInv (call k) v = CallStep-SystemInv k v
    Step-SystemInv {s} (resets e) v = rw e (record {
      counted = reset-Inv cfg c s.breaker;
      accounted = omega (arith, reset-counters s.breaker, v.accounted);
    })

    start-SystemInv : SystemInv start
    unfolding start new
    start-SystemInv = record { counted = new-Inv cfg c; accounted = omega arith }

    -- In every reachable state of a breaker with a completed configuration and without a listener, a closed
    -- breaker has fewer failures than the threshold and any other exactly as many, and each call that was
    -- counted is running, has recorded its result, has panicked, or was rejected.
    pub Reach-SystemInv : {t : System} → Reach start t → SystemInv t
    Reach-SystemInv here = start-SystemInv
    Reach-SystemInv (next r k) = Step-SystemInv k (Reach-SystemInv r)

  -- Between the start of a probe and the next result that is recorded no call is admitted.
  pub record IsWedged (s : System) : Type 0 where
    pub waiting : s.breaker.state ≡ half_open
    pub nobody : s.running ≡ 0

  half_open-allow :
      (now : ℕ) (b : Breaker)
      → b.state ≡ half_open
      → ((allow cfg (λ x. x) now b).1 ≡ false) × ((allow cfg (λ x. x) now b).0.state ≡ half_open)
  unfolding allow
  half_open-allow now b e = ground arith

  CallStep-IsWedged : {s t : System} → CallStep s t → IsWedged s → IsWedged t
  unfolding count_short_circuit
  CallStep-IsWedged {s} (begins now h) w =
      absurd (ground (arith, half_open-allow now s.breaker w.waiting))
  CallStep-IsWedged {s} (refused now h) w = record {
    waiting = (half_open-allow now s.breaker w.waiting).1;
    nobody = w.nobody;
  }
  CallStep-IsWedged (counted h) w = record { waiting = w.waiting; nobody = w.nobody }
  CallStep-IsWedged (returned now err h) w = absurd (omega (arith, w.nobody))
  CallStep-IsWedged (panics h) w = absurd (omega (arith, w.nobody))

  -- Once the breaker is half-open with no operation running, as when the probe has panicked, it stays
  -- half-open through every run without a `Reset`, however long, and each later call is rejected.
  pub IsWedged-forever :
      {s t : System} (now : ℕ)
      → IsWedged s
      → Calls s t
      → IsWedged t × ((allow cfg (λ x. x) now t.breaker).1 ≡ false)
  IsWedged-forever {s} {t} now w r =
      let v = stays r in (v, (half_open-allow now t.breaker v.waiting).0)
    where
      stays : {t' : System} → Calls s t' → IsWedged t'
      stays idle = w
      stays (then_call k st) = CallStep-IsWedged st (stays k)

  half_open-success :
      (now : ℕ) (err : Option E) (b : Breaker)
      → b.state ≡ half_open
      → cfg.is_failure err ≡ false
      → (record_result cfg (λ x. x) now err b).state ≡ closed
  unfolding record_result
  half_open-success now err b e h = ground arith

  -- In a half-open state with two operations running, a step is possible in which one of them, whichever it
  -- is, ends with a success, and that closes the breaker with the other still running.
  pub stale_success_closes :
      (s : System) (now : ℕ) (err : Option E)
      → s.breaker.state ≡ half_open
      → s.running ≡ 2
      → cfg.is_failure err ≡ false
      → (t : System) × CallStep s t × (t.breaker.state ≡ closed) × (t.running ≡ 1)
  stale_success_closes s now err e r h = (
    record s {
      breaker = record_result cfg (λ x. x) now err s.breaker;
      running = s.running - 1;
      recorded = s.recorded + 1;
    },
    returned now err (omega (arith, r)),
    half_open-success now err s.breaker e h,
    omega (arith, r),
  )

  -- Where a probe fails and the listener that is told of it calls `Reset`, the breaker ends closed with as
  -- many failures as the threshold, against the invariant of a breaker without a listener.
  pub listener_reset_lost :
      (now : ℕ) (err : Option E) (b : Breaker)
      → b.state ≡ half_open
      → cfg.is_failure err ≡ true
      → let b' = record_result cfg (reset (λ x. x)) now err b in
        (b'.state ≡ closed) × (b'.failures ≡ cfg.threshold) × (¬ Inv cfg b')
  unfolding record_result reset
  listener_reset_lost now err b e h = (ground arith, ground arith, λ v. absurd (ground arith))
