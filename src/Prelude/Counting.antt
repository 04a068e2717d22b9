-- ===== src/Prelude/Counting.antt =====
-- How often a text stands in a list of texts.
use mathlib.Core.Path.{◌≡◌, refl, ap, subst}
use mathlib.Core.Logic.{inl, inr}
use mathlib.Core.Bool.{Bool, true, false, ◌&&◌}
use mathlib.Core.List.{List, [], ◌∷◌, ◌++◌}
use Prim.Native.Nat.{ℕ, ◌+◌}
use native.Mathlib.Omega.{arith}
use mcpcheck.Prelude.Tests.{if◌then◌else◌, Bool-cases}
use mcpcheck.Prelude.Lists.{keep}
use mcpcheck.Prelude.Texts.{Text, ◌=ₜ◌, text_eq_iff}
use mcpcheck.Prelude.Sorting.{sort, insert}
use mcpcheck.Prelude.Members.{member}

abbrev pub count : Text → List Text → ℕ
count n [] = 0
count n (x ∷ xs) = (if x =ₜ n then 1 else 0) + count n xs

pub count-append : (n : Text) (xs ys : List Text) → count n (xs ++ ys) ≡ count n xs + count n ys
count-append n [] ys = omega arith
count-append n (x ∷ xs) ys = omega (arith, count-append n xs ys)

count-insert :
    (n : Text) (lt : Text → Text → Bool) (x : Text) (xs : List Text)
    → count n (insert lt x xs) ≡ count n (x ∷ xs)
unfolding insert
count-insert n lt x [] = refl
count-insert n lt x (y ∷ ys) = elim (Bool-cases (lt y x)) [
  | inl e ↦ rw e (omega (arith, count-insert n lt x ys))
  | inr e ↦ rw e
]

pub count-sort :
    (n : Text) (lt : Text → Text → Bool) (xs : List Text) → count n (sort lt xs) ≡ count n xs
unfolding sort
count-sort n lt [] = refl
count-sort n lt (x ∷ xs) = omega (arith, count-insert n lt x (sort lt xs), count-sort n lt xs)

-- No text stands twice.
abbrev pub AreDistinct : List Text → Type 0
AreDistinct [] = Unit
AreDistinct (x ∷ xs) = (member x xs ≡ false) × AreDistinct xs

member-snoc :
    (n : Text) (xs : List Text) (x : Text)
    → member n (xs ++ x ∷ []) ≡ (if member n xs then true else x =ₜ n)
unfolding member
member-snoc n [] x = ground arith
member-snoc n (y ∷ ys) x = ground (arith, member-snoc n ys x)

pub AreDistinct-snoc :
    (xs : List Text) (x : Text) → AreDistinct xs → member x xs ≡ false → AreDistinct (xs ++ x ∷ [])
unfolding member
AreDistinct-snoc [] x f h = (refl, tt)
AreDistinct-snoc (y ∷ ys) x f h = (
  ground (arith, member-snoc y ys x, text_eq_iff x y, text_eq_iff y x),
  AreDistinct-snoc ys x f.1 (ground arith),
)

count_absent : (n : Text) (xs : List Text) → member n xs ≡ false → count n xs ≡ 0
unfolding member
count_absent n [] h = refl
count_absent n (x ∷ xs) h = ground (arith, count_absent n xs)

-- What a test keeps of texts that stand once each.
pub count-keep :
    (n : Text) (p : Text → Bool) (xs : List Text)
    → AreDistinct xs
    → count n (keep p xs) ≡ (if member n xs && p n then 1 else 0)
unfolding member
count-keep n p [] f = refl
count-keep n p (x ∷ xs) f = elim (Bool-cases (x =ₜ n)) [
  | inl e ↦
      let q : x ≡ n = (text_eq_iff x n).0 e in
      let absent : member n xs ≡ false = subst (λ z. member z xs ≡ false) q f.0 in
      ground (arith, ap p q, absent, count-keep n p xs f.1)
  | inr e ↦ ground (arith, count-keep n p xs f.1)
]
