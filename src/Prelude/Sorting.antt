-- ===== src/Prelude/Sorting.antt =====
-- `sort.Strings` and `sort.SliceStable`: a stable sort by a `less` function. The order that they
-- return is fixed by their contract, so the simplest algorithm with that contract stands for them.
use mathlib.Core.Path.{◌≡◌, refl}
use mathlib.Core.Logic.{◌↔◌, inl, inr}
use mathlib.Core.Bool.{Bool, true, false}
use mathlib.Core.List.{List, [], ◌∷◌, Perm}
use mathlib.Core.List.Perm
use native.Mathlib.Omega.{arith}
use mcpcheck.Prelude.Tests.{if◌then◌else◌, Bool-cases}
use mcpcheck.Prelude.Lists.{In, here, there, In-cons, All}
use mcpcheck.Prelude.Texts.{Text, text_lt}

-- A `less` that `sort` accepts: a strict weak order.
pub record StrictWeak {ℓ} {A : Type ℓ} (lt : A → A → Bool) : Type ℓ where
  pub asym : (x y : A) → lt x y ≡ true → lt y x ≡ false
  pub negative_trans : (x y z : A) → lt y x ≡ false → lt z y ≡ false → lt z x ≡ false

module _ {ℓ} {A : Type ℓ} (lt : A → A → Bool) where
  unfoldable pub insert : A → List A → List A
  insert x [] = x ∷ []
  insert x (y ∷ ys) = if lt y x then y ∷ insert x ys else x ∷ y ∷ ys

  unfoldable pub sort : List A → List A
  unfolding insert
  sort [] = []
  sort (x ∷ xs) = insert x (sort xs)

  -- Nothing later is less than something earlier.
  abbrev pub IsSorted : List A → Type 0
  IsSorted [] = Unit
  IsSorted (x ∷ xs) = All (λ y. lt y x ≡ false) xs × IsSorted xs

  insert-perm : (x : A) (xs : List A) → Perm (insert x xs) (x ∷ xs)
  unfolding insert
  insert-perm x [] = Perm.refl (x ∷ [])
  insert-perm x (y ∷ ys) = elim (Bool-cases (lt y x)) [
    | inl e ↦ rw e (Perm.trans (Perm.cons y (insert-perm x ys)) (Perm.swap x y ys))
    | inr e ↦ rw e (Perm.refl (x ∷ y ∷ ys))
  ]

  -- Sorting keeps every element, as often as it was there.
  pub sort-perm : (xs : List A) → Perm (sort xs) xs
  unfolding sort
  sort-perm [] = Perm.refl []
  sort-perm (x ∷ xs) = Perm.trans (insert-perm x (sort xs)) (Perm.cons x (sort-perm xs))

  All-insert : (P : A → Type 0) (x : A) (ys : List A) → P x → All P ys → All P (insert x ys)
  unfolding insert
  All-insert P x [] h hs = (h, tt)
  All-insert P x (y ∷ ys) h hs = elim (Bool-cases (lt y x)) [
    | inl e ↦ rw e (hs.0, All-insert P x ys h hs.1)
    | inr e ↦ rw e (h, hs)
  ]

  All-later :
      (w : StrictWeak lt) (x y : A) (ys : List A)
      → lt y x ≡ false
      → All (λ z. lt z y ≡ false) ys
      → All (λ z. lt z x ≡ false) ys
  All-later w x y [] e hs = tt
  All-later w x y (z ∷ ys) e hs = (w.negative_trans x y z e hs.0, All-later w x y ys e hs.1)

  insert-IsSorted : (w : StrictWeak lt) (x : A) (ys : List A) → IsSorted ys → IsSorted (insert x ys)
  unfolding insert
  insert-IsSorted w x [] s = (tt, tt)
  insert-IsSorted w x (y ∷ ys) s = elim (Bool-cases (lt y x)) [
    | inl e ↦
        rw e (All-insert (λ z. lt z y ≡ false) x ys (w.asym y x e) s.0, insert-IsSorted w x ys s.1)
    | inr e ↦ rw e ((e, All-later w x y ys e s.0), s)
  ]

  pub sort-IsSorted : (w : StrictWeak lt) (xs : List A) → IsSorted (sort xs)
  unfolding sort
  sort-IsSorted w [] = tt
  sort-IsSorted w (x ∷ xs) = insert-IsSorted w x (sort xs) (sort-IsSorted w xs)

  In-insert : {a : A} (x : A) (ys : List A) → In a (insert x ys) → In a (x ∷ ys)
  unfolding insert
  In-insert x [] h = h
  In-insert x (y ∷ ys) h = elim (Bool-cases (lt y x)) [
    | inl e ↦ elim (In-cons (rw e at h)) [
      | inl p ↦ there (here p)
      | inr k ↦ elim (In-cons (In-insert x ys k)) [ inl p ↦ here p | inr m ↦ there (there m) ]
    ]
    | inr e ↦ rw e at h
  ]

  insert-In : {a : A} (x : A) (ys : List A) → In a (x ∷ ys) → In a (insert x ys)
  unfolding insert
  insert-In x [] h = h
  insert-In x (y ∷ ys) h = elim (Bool-cases (lt y x)) [
    | inl e ↦ rw e (elim (In-cons h) [
      | inl p ↦ there (insert-In x ys (here p))
      | inr k ↦ elim (In-cons k) [ inl p ↦ here p | inr m ↦ there (insert-In x ys (there m)) ]
    ])
    | inr e ↦ rw e h
  ]

  -- Sorting loses no element and adds none.
  pub In-sort : {a : A} (xs : List A) → In a (sort xs) ↔ In a xs
  unfolding sort
  In-sort [] = (λ h. h, λ h. h)
  In-sort (x ∷ xs) = (
    λ h. elim (In-cons (In-insert x (sort xs) h)) [
      | inl p ↦ here p
      | inr k ↦ there ((In-sort xs).0 k)
    ],
    λ h.
        insert-In x (sort xs)
          (elim (In-cons h) [ inl p ↦ here p | inr k ↦ there ((In-sort xs).1 k) ]),
  )

text_lt-asym : (s t : Text) → text_lt s t ≡ true → text_lt t s ≡ false
unfolding text_lt
text_lt-asym [] [] h = refl
text_lt-asym [] (d ∷ t) h = refl
text_lt-asym (c ∷ s) [] h = cc
text_lt-asym (c ∷ s) (d ∷ t) h = ground (arith, text_lt-asym s t)

text_lt-negative_trans :
    (s t r : Text) → text_lt t s ≡ false → text_lt r t ≡ false → text_lt r s ≡ false
unfolding text_lt
text_lt-negative_trans [] [] [] h k = refl
text_lt-negative_trans [] [] (e ∷ r) h k = refl
text_lt-negative_trans [] (d ∷ t) [] h k = cc
text_lt-negative_trans [] (d ∷ t) (e ∷ r) h k = refl
text_lt-negative_trans (c ∷ s) [] r h k = cc
text_lt-negative_trans (c ∷ s) (d ∷ t) [] h k = cc
text_lt-negative_trans (c ∷ s) (d ∷ t) (e ∷ r) h k = ground (arith, text_lt-negative_trans s t r)

-- The order of texts is one that `sort` accepts.
pub text_lt-StrictWeak : StrictWeak text_lt
text_lt-StrictWeak = record { asym = text_lt-asym; negative_trans = text_lt-negative_trans }

-- Texts of which neither is less are equal.
pub text_lt-total : (s t : Text) → text_lt s t ≡ false → text_lt t s ≡ false → s ≡ t
unfolding text_lt
text_lt-total [] [] h k = refl
text_lt-total [] (d ∷ t) h k = cc
text_lt-total (c ∷ s) [] h k = cc
text_lt-total (c ∷ s) (d ∷ t) h k = ground (arith, text_lt-total s t)
