-- ===== src/Retry/Attempts.antt =====
-- How often `Do` calls the operation, and why it stops.
use mcpcheck.Prelude.{
  ℕ, zero, suc, ◌+◌, ◌≤◌, ◌<◌, ◌≡◌, refl, subst, inl, inr, true, false, Option, none, some, ◌==◌,
  arith, Bool-cases,
}
use mcpcheck.Retry.{
  Floats, Policy, attempts_of, compute_delay, Environment, Outcome, succeeded, stopped, refused,
  interrupted, exhausted, no_attempts, Run, slept, after_sleep, after_failure, after_op,
  after_check, attempt_from, do_retry,
}

module _ {E : Type 0} (env : Environment E) (delay : ℕ → ℕ) (limit : ℕ) where
  -- An attempt that the next one follows.
  pub record IsRetried (i : ℕ) : Type 0 where
    pub error : E
    pub not_stopped : env.ctx i ≡ none
    pub failed : env.op i ≡ some error
    pub retried : env.retryable error ≡ true
    pub woke : env.sleep i (delay i) ≡ none

  -- Why the loop stops at its last call.
  abbrev pub Stops : ℕ → Outcome E → Type 0
  Stops k succeeded = (0 < k) × (env.ctx k ≡ none) × (env.op k ≡ none)
  Stops k (stopped e) = env.ctx (k + 1) ≡ some e
  Stops k (refused e) = (env.op k ≡ some e) × (env.retryable e ≡ false) × (0 < k) × (k < limit)
  Stops k (interrupted e) =
      (env.sleep k (delay k) ≡ some e)
      × ((f : E) × (env.op k ≡ some f) × (env.retryable f ≡ true))
      × (0 < k)
      × (k < limit)
  Stops k (exhausted n e) = (n ≡ limit) × (k ≡ limit) × (env.op k ≡ some e)
  Stops k no_attempts = ⊥

  -- The attempt at which a run stops.
  abbrev pub stop_at : ℕ → Outcome E → ℕ
  stop_at k succeeded = k
  stop_at k (stopped e) = k + 1
  stop_at k (refused e) = k
  stop_at k (interrupted e) = k
  stop_at k (exhausted n e) = k
  stop_at k no_attempts = k

  -- A run from an attempt on: the attempts before the one at which it stops were retried.
  pub record Explains (from : ℕ) (r : Run E) : Type 0 where
    pub at_least : from ≤ r.calls + 1
    pub at_most : r.calls ≤ limit
    pub retries : (i : ℕ) → from ≤ i → i < stop_at r.calls r.outcome → IsRetried i
    pub stops : Stops r.calls r.outcome

  -- A run that stops at its first attempt.
  ends_at_once :
      (attempt : ℕ) (r : Run E)
      → stop_at r.calls r.outcome ≤ attempt
      → attempt ≤ r.calls + 1
      → r.calls ≤ limit
      → Stops r.calls r.outcome
      → Explains attempt r
  ends_at_once attempt r h a b s = record {
    at_least = a;
    at_most = b;
    retries = λ i l g. absurd (omega arith);
    stops = s;
  }

  slept-Explains :
      (attempt : ℕ) (r : Run E)
      → IsRetried attempt
      → Explains (attempt + 1) r
      → Explains attempt (slept (delay attempt) r)
  slept-Explains attempt r t x = record {
    at_least = omega (arith, x.at_least);
    at_most = x.at_most;
    retries = λ i l g. elim (Bool-cases (i == attempt)) [
      | inl e ↦ subst IsRetried (ground (arith, e)) t
      | inr e ↦ x.retries i (ground (arith, e)) g
    ];
    stops = x.stops;
  }

  after_sleep-Explains :
      (attempt : ℕ) (e : E) (s : Option E) (rest : Run E)
      → 0 < attempt
      → attempt < limit
      → env.ctx attempt ≡ none
      → env.op attempt ≡ some e
      → env.retryable e ≡ true
      → env.sleep attempt (delay attempt) ≡ s
      → Explains (attempt + 1) rest
      → Explains attempt (after_sleep env delay limit attempt (delay attempt) s rest)
  after_sleep-Explains attempt e none rest h l c o b k x =
      slept-Explains attempt rest
        (record { error = e; not_stopped = c; failed = o; retried = b; woke = k }) x
  after_sleep-Explains attempt e (some d) rest h l c o b k x =
      ends_at_once attempt _ (omega arith) (omega arith) (omega arith) (k, (e, o, b), h, l)

  after_failure-Explains :
      (attempt : ℕ) (e : E) (rest : Run E)
      → 0 < attempt
      → attempt ≤ limit
      → env.ctx attempt ≡ none
      → env.op attempt ≡ some e
      → (attempt < limit → Explains (attempt + 1) rest)
      → Explains attempt (after_failure env delay limit attempt e rest)
  after_failure-Explains attempt e rest h l c o ih = elim (Bool-cases (attempt == limit)) [
    | inl a ↦
        rw a (ends_at_once attempt _ (omega arith) (omega arith) l (refl, ground (arith, a), o))
    | inr a ↦
        let m : attempt < limit = ground (arith, a) in
        elim (Bool-cases (env.retryable e)) [
          | inr b ↦ rw (a, b) (ends_at_once attempt _ (omega arith) (omega arith) l (o, b, h, m))
          | inl b ↦ rw (a, b) (after_sleep-Explains attempt e _ rest h m c o b refl (ih m))
        ]
  ]

  after_op-Explains :
      (attempt : ℕ) (o : Option E) (rest : Run E)
      → 0 < attempt
      → attempt ≤ limit
      → env.ctx attempt ≡ none
      → env.op attempt ≡ o
      → (attempt < limit → Explains (attempt + 1) rest)
      → Explains attempt (after_op env delay limit attempt o rest)
  after_op-Explains attempt none rest h l c o ih =
      ends_at_once attempt _ (omega arith) (omega arith) l (h, c, o)
  after_op-Explains attempt (some e) rest h l c o ih =
      after_failure-Explains attempt e rest h l c o ih

  after_check-Explains :
      (attempt : ℕ) (o : Option E) (rest : Run E)
      → 0 < attempt
      → attempt ≤ limit
      → env.ctx attempt ≡ o
      → (attempt < limit → Explains (attempt + 1) rest)
      → Explains attempt (after_check env delay limit attempt o rest)
  after_check-Explains attempt none rest h l c ih =
      after_op-Explains attempt (env.op attempt) rest h l c refl ih
  after_check-Explains attempt (some e) rest h l c ih =
      ends_at_once attempt _ (omega arith) (omega arith) (omega arith)
        (subst (λ n. env.ctx n ≡ some e) (omega arith) c)

  attempt_from-Explains :
      (attempt n : ℕ)
      → 0 < attempt
      → attempt + n ≡ limit + 1
      → 0 < n
      → Explains attempt (attempt_from env delay limit attempt n)
  unfolding attempt_from
  attempt_from-Explains attempt zero h q z = absurd (omega arith)
  attempt_from-Explains attempt (suc n) h q z =
      after_check-Explains attempt (env.ctx attempt) (attempt_from env delay limit (attempt + 1) n)
        h (omega arith) refl
        (λ l. attempt_from-Explains (attempt + 1) n (omega arith) (omega arith) (omega arith))

attempts_of_pos : {F : Type 0} (p : Policy F) → 0 < attempts_of p
unfolding attempts_of
attempts_of_pos p = ground arith

-- `Do` returns after as many calls of the operation as the policy's attempts at most, and never without an
-- attempt. Before the attempt at which it stops every call failed with an error that is retried, under a context that was
-- not done, and the sleep was not interrupted. At that attempt the call succeeded, the context was done
-- before it, its error is not retried, the sleep behind it was interrupted, or it was the last and failed.
pub do_retry-Explains :
    {E : Type 0} (f : Floats) (p : Policy f.F) (env : Environment E)
    → Explains env (compute_delay f p) (attempts_of p) 1 (do_retry f p env)
unfolding do_retry
do_retry-Explains f p env =
    attempt_from-Explains env (compute_delay f p) (attempts_of p) 1 (attempts_of p) (omega arith)
      (omega arith) (attempts_of_pos p)
