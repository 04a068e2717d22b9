-- ===== src/CircuitBreaker/Invariant.antt =====
-- What holds of a breaker between two critical sections, and what `Do` returns in each state.
use mcpcheck.Prelude.{
  ℕ, ◌+◌, ◌-◌, ◌<◌, ◌≡◌, refl, sym, subst, Bool, true, false, Option, none, ltb, leb, if◌then◌else◌,
  arith,
}
use mcpcheck.CircuitBreaker.{
  State, closed, open_state, half_open, Config, RawConfig, Breaker, Outcome, err_open, ran,
  complete, new, transition, admit, allow, settle, record_result, reset, do_call,
}

-- A configuration that `New` completed.
pub record IsComplete {E : Type 0} (cfg : Config E) : Type 0 where
  pub positive_threshold : 0 < cfg.threshold
  pub positive_cooldown : 0 < cfg.cooldown

pub complete-IsComplete : {E : Type 0} (raw : RawConfig E) → IsComplete (complete raw)
unfolding complete
complete-IsComplete raw = record {
  positive_threshold = ground arith;
  positive_cooldown = ground arith;
}

-- A closed breaker is below its threshold, and one that is not has counted up to it.
abbrev pub Counted : ℕ → State → ℕ → Type 0
Counted threshold closed failures = failures < threshold
Counted threshold open_state failures = failures ≡ threshold
Counted threshold half_open failures = failures ≡ threshold

abbrev pub Inv : {E : Type 0} → Config E → Breaker → Type 0
Inv cfg b = Counted cfg.threshold b.state b.failures

module _ {E : Type 0} (cfg : Config E) (c : IsComplete cfg) where
  pub new-Inv : Inv cfg new
  unfolding new
  new-Inv = c.positive_threshold

  admit-Inv :
      (now : ℕ) (s : State) (b : Breaker)
      → b.state ≡ s
      → Inv cfg b
      → Inv cfg (admit cfg (λ x. x) now s b).0
  unfolding admit transition
  admit-Inv now closed b e v = v
  admit-Inv now open_state b e v = ground arith
  admit-Inv now half_open b e v = v

  pub allow-Inv : (now : ℕ) (b : Breaker) → Inv cfg b → Inv cfg (allow cfg (λ x. x) now b).0
  unfolding allow
  allow-Inv now b v = admit-Inv now b.state (record b { total_calls = b.total_calls + 1 }) refl v

  settle-Inv :
      (now : ℕ) (s : State) (failed : Bool) (b : Breaker)
      → b.state ≡ s
      → Inv cfg b
      → Inv cfg (settle cfg (λ x. x) now s failed b)
  unfolding settle transition
  settle-Inv now closed false b e v = ground arith
  settle-Inv now closed true b e v = ground arith
  settle-Inv now half_open true b e v = ground arith
  settle-Inv now half_open false b e v = ground arith
  settle-Inv now open_state failed b e v = v

  pub record_result-Inv :
      (now : ℕ) (err : Option E) (b : Breaker)
      → Inv cfg b
      → Inv cfg (record_result cfg (λ x. x) now err b)
  unfolding record_result
  record_result-Inv now err b v = settle-Inv now b.state (cfg.is_failure err) _ refl v

  pub reset-Inv : (b : Breaker) → Inv cfg (reset (λ x. x) b)
  unfolding reset transition
  reset-Inv b = ground arith

-- The abstract breaker: how many failures in a row, or since when it is open, or that a probe is out.
pub data Phase : Type 0 where
  healthy : ℕ → Phase
  tripped : ℕ → Phase
  probing : Phase

abbrev phase_of : State → Breaker → Phase
phase_of closed b = healthy b.failures
phase_of open_state b = tripped b.opened_at
phase_of half_open b = probing

abbrev pub phase : Breaker → Phase
phase b = phase_of b.state b

-- What one call does to the abstract breaker, and whether its operation runs.
pub next_phase : {E : Type 0} → Config E → ℕ → ℕ → Bool → Phase → Phase × Bool
next_phase cfg start finish true (healthy k) =
    (if leb cfg.threshold (k + 1) then tripped finish else healthy (k + 1), true)
next_phase cfg start finish false (healthy k) = (healthy 0, true)
next_phase cfg start finish failed (tripped since) =
    if ltb (start - since) cfg.cooldown
    then (tripped since, false)
    else (if failed then tripped finish else healthy 0, true)
next_phase cfg start finish failed probing = (probing, false)

abbrev pub outcome : {E : Type 0} → Bool → Option E → Outcome E
outcome true result = ran result
outcome false result = err_open

-- What a call returns and leaves, against the abstract breaker.
abbrev pub IsNext :
    {E : Type 0} → Config E → ℕ → ℕ → Option E → Breaker → Breaker × Outcome E → Type 0
IsNext cfg start finish result b (b', o) =
    let (p, runs) = next_phase cfg start finish (cfg.is_failure result) (phase b) in
    (phase b' ≡ p) × (o ≡ outcome runs result)

do_call-IsNext :
    {E : Type 0} (cfg : Config E) (start finish : ℕ) (result : Option E) (b : Breaker)
    → IsNext cfg start finish result b
        (do_call cfg (λ x. x) (λ x. x) (λ x. x) none start finish result b)
unfolding do_call transition next_phase
do_call-IsNext cfg start finish result b = ground arith

-- `Do` refines the abstract breaker, where its listener, if there is one, leaves the breaker as it is and no
-- other call comes between: for a context that is not cancelled the new state is the abstract next one, the
-- operation's result is returned where it ran, and the error of an open breaker where it did not.
pub do_call-refines :
    {E : Type 0} (cfg : Config E) (opening others settling : Breaker → Breaker) (start finish : ℕ)
    (result : Option E) (b : Breaker)
    → ((x : Breaker) → opening x ≡ x)
    → ((x : Breaker) → others x ≡ x)
    → ((x : Breaker) → settling x ≡ x)
    → IsNext cfg start finish result b
        (do_call cfg opening others settling none start finish result b)
do_call-refines cfg opening others settling start finish result b f g h =
    subst
      (λ (k : (Breaker → Breaker) × (Breaker → Breaker) × (Breaker → Breaker)).
        IsNext cfg start finish result b (do_call cfg k.0 k.1 k.2 none start finish result b))
      (λ i. ((λ x. sym (f x) i), (λ x. sym (g x) i), (λ x. sym (h x) i)))
      (do_call-IsNext cfg start finish result b)
