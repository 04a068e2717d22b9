-- ===== src/Prelude/Members.antt =====
-- Sets of texts as lists, and the laws of the text functions that the rules rest on.
use mathlib.Core.Path.{◌≡◌, refl, sym, ap, ap₂, ◌∙◌}
use mathlib.Core.Logic.{◌↔◌, inl, inr}
use mathlib.Core.Bool.{Bool, true, false, ◌||◌}
use mathlib.Core.List.{List, [], ◌∷◌, ◌++◌, reverse, reverse-reverse, reverse-append}
use Prim.Native.Nat.{ℕ}
use native.Mathlib.Omega.{arith}
use mcpcheck.Prelude.Tests.{if◌then◌else◌, Bool-cases, not-false}
use mcpcheck.Prelude.Lists.{In, here, there, In-cons, any}
use mcpcheck.Prelude.Texts.{
  Text, ◌=ₜ◌, text_eq_iff, text_eq_refl, has_prefix, has_suffix, remove_all,
}

-- `_, ok := set[key]` for a map to the empty struct.
unfoldable pub member : Text → List Text → Bool
member s [] = false
member s (t ∷ ts) = if t =ₜ s then true else member s ts

pub member_iff : (s : Text) (ts : List Text) → (member s ts ≡ true) ↔ In s ts
unfolding member
member_iff s [] = (λ e. cc, λ h. elim h [ ])
member_iff s (t ∷ ts) = elim (Bool-cases (t =ₜ s)) [
  | inl e ↦ (λ _. here (sym ((text_eq_iff t s).0 e)), λ _. rw e)
  | inr e ↦ rw e (
    λ h. there ((member_iff s ts).0 h),
    λ h. elim (In-cons h) [
      | inl p ↦ absurd (not-false e (rw p (text_eq_refl t)))
      | inr k ↦ (member_iff s ts).1 k
    ],
  )
]

pub any_iff {ℓ} :
    {A : Type ℓ} (p : A → Bool) (xs : List A)
    → (any p xs ≡ true) ↔ ((x : A) × In x xs × (p x ≡ true))
any_iff p [] = (λ e. absurd (cc), λ (x, h, e). elim h [ ])
any_iff p (x ∷ xs) = elim (Bool-cases (p x)) [
  | inl e ↦ (λ _. (x, here refl, e), λ _. rw e)
  | inr e ↦ rw e (
    λ h. let (y, i, q) = (any_iff p xs).0 h in (y, there i, q),
    λ (y, h, q). elim (In-cons h) [
      | inl z ↦ absurd (not-false e (rw z at q))
      | inr k ↦ (any_iff p xs).1 (y, k, q)
    ],
  )
]

pub has_prefix_iff : (s t : Text) → (has_prefix s t ≡ true) ↔ ((r : Text) × (s ≡ t ++ r))
unfolding has_prefix
has_prefix_iff s [] = (λ _. (s, refl), λ _. has_prefix_nil s)
  where
    has_prefix_nil : (z : Text) → has_prefix z [] ≡ true
    has_prefix_nil [] = refl
    has_prefix_nil (c ∷ z) = refl
has_prefix_iff [] (d ∷ t) = (λ e. absurd (cc), λ (r, e). cc)
has_prefix_iff (c ∷ s) (d ∷ t) = (
  λ e. let (r, q) = (has_prefix_iff s t).0 (ground arith) in (r, ap₂ ◌∷◌ (ground arith) q),
  λ (r, e). ground (arith, (has_prefix_iff s t).1 (r, cc)),
)

-- A removed code point may stand anywhere in the text, or not at all.
pub remove_all-middle : (c : ℕ) (s t : Text) → remove_all c (s ++ c ∷ t) ≡ remove_all c (s ++ t)
unfolding remove_all
remove_all-middle c [] t = ground arith
remove_all-middle c (d ∷ s) t = ground (arith, remove_all-middle c s t)

reverse_eq : (s t : Text) → reverse s ≡ t → s ≡ reverse t
reverse_eq s t e = sym (reverse-reverse s) ∙ ap reverse e

pub has_suffix_iff : (s t : Text) → (has_suffix s t ≡ true) ↔ ((r : Text) × (s ≡ r ++ t))
unfolding has_suffix
has_suffix_iff s t = (
  λ e.
      let (r, q) = (has_prefix_iff (reverse s) (reverse t)).0 e in
      (
        reverse r,
        reverse_eq s (reverse t ++ r) q
            ∙ reverse-append (reverse t) r
            ∙ ap (◌++◌ (reverse r)) (reverse-reverse t),
      ),
  λ (r, e).
      (has_prefix_iff (reverse s) (reverse t)).1 (reverse r, ap reverse e ∙ reverse-append r t),
)

pub member-append :
    (n : Text) (xs ys : List Text) → member n (xs ++ ys) ≡ (member n xs || member n ys)
unfolding member
member-append n [] ys = refl
member-append n (x ∷ xs) ys = ground (arith, member-append n xs ys)

pub member-one : (n x : Text) → member n (x ∷ []) ≡ x =ₜ n
unfolding member
member-one n x = ground arith

pub member-cons :
    (n x : Text) (xs : List Text) → member n (x ∷ xs) ≡ (if x =ₜ n then true else member n xs)
unfolding member
member-cons n x xs = refl

pub member-nil : (n : Text) → member n [] ≡ false
unfolding member
member-nil n = refl
