-- ===== src/Eventbus/Subscribers.antt =====
-- The subscribers of a `Sync` bus.
use mcpcheck.Prelude.{
  ℕ, ◌+◌, ◌<◌, ◌≡◌, ◌↔◌, inl, inr, not, List, [], ◌∷◌, Option, none, some, All, In, here, there,
  In-cons, keep, ◌==◌, arith, Bool-cases,
}
use mcpcheck.Eventbus.{Sync, new_sync, subscribe, unsubscribe, handler_of, ids_of, publish}
use mcpcheck.Eventbus.Delivery.{AreUnique, IsBus, IsRising, publish_lem}

not_of_below : (n : ℕ) (ids : List ℕ) → All (λ id. id < n) ids → ¬ (In n ids)
not_of_below n (i ∷ ids) a (here e) = absurd (omega (arith, a.0, e))
not_of_below n (i ∷ ids) a (there k) = not_of_below n ids a.1 k
not_of_below n [] a k = elim k [ ]

below_later : (n : ℕ) (ids : List ℕ) → All (λ id. id < n) ids → All (λ id. id < n + 1) ids
below_later n [] a = tt
below_later n (i ∷ ids) a = (omega (arith, a.0), below_later n ids a.1)

-- The calls that change a bus.
pub data Change (H : Type 0) : Type 0 where
  subscribes : Option H → Change H
  unsubscribes : ℕ → Change H

module _ {H : Type 0} where
  In-keep_ids :
      (n id : ℕ) (hs : List (ℕ × H))
      → In n (ids_of (keep (λ p. not (p.0 == id)) hs))
      → In n (ids_of hs)
  unfolding ids_of
  In-keep_ids n id [] k = k
  In-keep_ids n id ((i, h) ∷ hs) k = elim (Bool-cases (i == id)) [
    | inl e ↦ there (In-keep_ids n id hs (rw e at k))
    | inr e ↦ elim (In-cons (rw e at k)) [ inl q ↦ here q | inr m ↦ there (In-keep_ids n id hs m) ]
  ]

  keep-AreUnique :
      (id : ℕ) (hs : List (ℕ × H))
      → AreUnique (ids_of hs)
      → AreUnique (ids_of (keep (λ p. not (p.0 == id)) hs))
  unfolding ids_of
  keep-AreUnique id [] u = tt
  keep-AreUnique id ((i, h) ∷ hs) u = elim (Bool-cases (i == id)) [
    | inl e ↦ rw e (keep-AreUnique id hs u.1)
    | inr e ↦ rw e (λ k. u.0 (In-keep_ids i id hs k), keep-AreUnique id hs u.1)
  ]

  keep-below :
      (n id : ℕ) (hs : List (ℕ × H))
      → All (λ i. i < n) (ids_of hs)
      → All (λ i. i < n) (ids_of (keep (λ p. not (p.0 == id)) hs))
  unfolding ids_of
  keep-below n id [] a = tt
  keep-below n id ((i, h) ∷ hs) a = elim (Bool-cases (i == id)) [
    | inl e ↦ rw e (keep-below n id hs a.1)
    | inr e ↦ rw e (a.0, keep-below n id hs a.1)
  ]

  subscribe-IsBus : (o : Option H) (b : Sync H) → IsBus b → IsBus (subscribe o b).0
  unfolding subscribe ids_of
  subscribe-IsBus none b v = v
  subscribe-IsBus (some h) b v = record {
    unique = (not_of_below b.next_id (ids_of b.handlers) v.below, v.unique);
    below = (omega arith, below_later b.next_id (ids_of b.handlers) v.below);
  }

  unsubscribe-IsBus : (id : ℕ) (b : Sync H) → IsBus b → IsBus (unsubscribe id b)
  unfolding unsubscribe
  unsubscribe-IsBus id b v = record {
    unique = keep-AreUnique id b.handlers v.unique;
    below = keep-below b.next_id id b.handlers v.below;
  }

  abbrev pub changed : List (Change H) → Sync H → Sync H
  changed [] b = b
  changed (subscribes o ∷ cs) b = changed cs (subscribe o b).0
  changed (unsubscribes id ∷ cs) b = changed cs (unsubscribe id b)

  changed-IsBus : (cs : List (Change H)) (b : Sync H) → IsBus b → IsBus (changed cs b)
  changed-IsBus [] b v = v
  changed-IsBus (subscribes o ∷ cs) b v = changed-IsBus cs _ (subscribe-IsBus o b v)
  changed-IsBus (unsubscribes id ∷ cs) b v = changed-IsBus cs _ (unsubscribe-IsBus id b v)

  -- After any calls of `Subscribe` and of the closures that it returned, from a new bus, `Publish` calls
  -- each handler that is subscribed when it begins, and still is when it looks again, once, and no other,
  -- in the order of their subscriptions.
  pub publish-changed :
      (cs ds : List (Change H))
      → let b = changed cs new_sync in
        let later = changed ds b in
        IsRising (ids_of (publish b later))
        × ((id : ℕ) (h : H)
            → In (id, h) (publish b later)
              ↔ (In id (ids_of b.handlers) × (handler_of id later.handlers ≡ some h)))
  unfolding ids_of
  publish-changed cs ds =
      publish_lem (changed cs new_sync) (changed ds (changed cs new_sync))
        (changed-IsBus cs new_sync (record { unique = tt; below = tt }))
