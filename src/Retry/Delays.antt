-- ===== src/Retry/Delays.antt =====
-- The delays of `computeDelay`.
use mcpcheck.Prelude.{
  ℕ, zero, suc, ◌+◌, ◌-◌, ◌≡◌, ◌⊎◌, refl, ap, ◌∙◌, inl, inr, false, arith, Bool-cases,
}
use mcpcheck.Retry.{Floats, Policy, base_of, cap_of, multiplier_of, grow, jittered, compute_delay}

module _ (f : Floats) where
  -- A value of the loop behind its first round: the cap, or below it.
  grow-capped :
      (by cap : f.F) (n : ℕ) (base : f.F)
      → (grow f by cap (suc n) base ≡ cap) ⊎ (f.ge (grow f by cap (suc n) base) cap ≡ false)
  unfolding grow
  grow-capped by cap zero base = elim (Bool-cases (f.ge (f.times base by) cap)) [
    | inl e ↦ rw e (inl refl)
    | inr e ↦ rw e (inr e)
  ]
  grow-capped by cap (suc n) base = elim (Bool-cases (f.ge (f.times base by) cap)) [
    | inl e ↦ rw e (inl refl)
    | inr e ↦ rw e (grow-capped by cap n (f.times base by))
  ]

  abbrev grown : Policy f.F → ℕ → f.F
  grown p k = grow f (multiplier_of f p.multiplier) (f.of_ns (cap_of p)) k (f.of_ns (base_of p))

  -- Without jitter every delay behind the first one comes from a value that is the cap or below it, while
  -- the first one is the base delay, also where that is above the cap.
  pub compute_delay-capped :
      (p : Policy f.F)
      → p.has_jitter ≡ false
      → (compute_delay f p 1 ≡ f.to_ns (f.of_ns (base_of p)))
        × ((n : ℕ)
            → (x : f.F) × (compute_delay f p (n + 2) ≡ f.to_ns x)
              × ((x ≡ f.of_ns (cap_of p)) ⊎ (f.ge x (f.of_ns (cap_of p)) ≡ false)))
  unfolding compute_delay grow
  compute_delay-capped p h = (
    ap (λ b. f.to_ns (jittered f b (f.of_ns (base_of p)))) h,
    λ n. (
      grow f (multiplier_of f p.multiplier) (f.of_ns (cap_of p)) (suc n) (f.of_ns (base_of p)),
      ap (λ b. f.to_ns (jittered f b (grown p (n + 2 - 1)))) h
          ∙ ap (λ k. f.to_ns (grown p k)) {y = suc n} (omega arith),
      grow-capped (multiplier_of f p.multiplier) (f.of_ns (cap_of p)) n (f.of_ns (base_of p)),
    ),
  )
