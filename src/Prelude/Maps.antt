-- ===== src/Prelude/Maps.antt =====
-- A map with texts as keys, as the list of its entries in the order of one iteration.
use mathlib.Core.Path.{◌≡◌, refl}
use mathlib.Core.Logic.{inl, inr}
use mathlib.Core.Option.{Option, none, some}
use mathlib.Core.List.{List, [], ◌∷◌}
use native.Mathlib.Omega.{arith}
use mcpcheck.Prelude.Tests.{if◌then◌else◌, Bool-cases}
use mcpcheck.Prelude.Lists.{In, here, there, In-cons}
use mcpcheck.Prelude.Texts.{Text, ◌=ₜ◌, text_eq_iff}

module _ {V : Type 0} where
  -- `m[key]`
  unfoldable pub get_key : Text → List (Text × V) → Option V
  get_key key [] = none
  get_key key ((k, v) ∷ m) = if k =ₜ key then some v else get_key key m

  -- `m[key] = v`
  unfoldable pub put_key : Text → V → List (Text × V) → List (Text × V)
  put_key key v [] = (key, v) ∷ []
  put_key key v ((k, w) ∷ m) = if k =ₜ key then (key, v) ∷ m else (k, w) ∷ put_key key v m

  -- `delete(m, key)`
  unfoldable pub delete_key : Text → List (Text × V) → List (Text × V)
  delete_key key [] = []
  delete_key key ((k, w) ∷ m) = if k =ₜ key then delete_key key m else (k, w) ∷ delete_key key m

  pub get_key-put_key :
      (key j : Text) (v : V) (m : List (Text × V))
      → get_key j (put_key key v m) ≡ (if key =ₜ j then some v else get_key j m)
  unfolding get_key put_key
  get_key-put_key key j v [] = refl
  get_key-put_key key j v ((k, w) ∷ m) =
      ground
        (arith, text_eq_iff key j, text_eq_iff k key, text_eq_iff k j, get_key-put_key key j v m)

  pub get_key-delete_key :
      (key j : Text) (m : List (Text × V))
      → get_key j (delete_key key m) ≡ (if key =ₜ j then none else get_key j m)
  unfolding get_key delete_key
  get_key-delete_key key j [] = ground arith
  get_key-delete_key key j ((k, w) ∷ m) =
      ground
        (arith, text_eq_iff key j, text_eq_iff k key, text_eq_iff k j, get_key-delete_key key j m)

  pub get_key-In :
      (key : Text) (v : V) (m : List (Text × V)) → get_key key m ≡ some v → In (key, v) m
  unfolding get_key
  get_key-In key v [] h = cc
  get_key-In key v ((k, w) ∷ m) h = elim (Bool-cases (k =ₜ key)) [
    | inl e ↦
        let q : some w ≡ some v = rw e at h in here (ground (arith, q, (text_eq_iff k key).0 e))
    | inr e ↦ there (get_key-In key v m (rw e at h))
  ]

  -- Some entry is found where there is one.
  pub In-get_key :
      (key : Text) (v : V) (m : List (Text × V))
      → In (key, v) m
      → (w : V) × (get_key key m ≡ some w)
  unfolding get_key
  In-get_key key v [] h = elim h [ ]
  In-get_key key v ((k, w) ∷ m) h = elim (Bool-cases (k =ₜ key)) [
    | inl e ↦ (w, rw e)
    | inr e ↦ elim (In-cons h) [
      | inl p ↦
          let q : k ≡ key = ground (arith, p) in absurd (ground (arith, (text_eq_iff k key).1 q))
      | inr t ↦ rw e (In-get_key key v m t)
    ]
  ]
