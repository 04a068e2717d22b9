-- ===== src/Tokens/Segments.antt =====
-- `strings.Split(token, ".")`
use mcpcheck.Prelude.{
  ℕ, ◌≡◌, ◌≢◌, refl, sym, ap, ap₂, ◌∙◌, inl, inr, List, [], ◌∷◌, ◌++◌, Text, ◌==◌, if◌then◌else◌,
  arith, Bool-cases,
}

abbrev add_first : ℕ → List Text → List Text
add_first c [] = (c ∷ []) ∷ []
add_first c (s ∷ ss) = (c ∷ s) ∷ ss

unfoldable pub split_dots : Text → List Text
split_dots [] = [] ∷ []
split_dots (c ∷ s) = if c == b'.' then [] ∷ split_dots s else add_first c (split_dots s)

-- No dot.
abbrev pub IsSegment : Text → Type 0
IsSegment [] = Unit
IsSegment (c ∷ s) = (c ≢ b'.') × IsSegment s

split_dots-cons :
    (a rest : Text) → IsSegment a → split_dots (a ++ (b'.' ∷ rest)) ≡ a ∷ split_dots rest
unfolding split_dots
split_dots-cons [] rest h = refl
split_dots-cons (c ∷ a) rest h = elim (Bool-cases (c == b'.')) [
  | inl e ↦ absurd (h.0 (ground (arith, e)))
  | inr e ↦ rw e (ap (add_first c) (split_dots-cons a rest h.1))
]

split_dots_last : (a : Text) → IsSegment a → split_dots a ≡ a ∷ []
unfolding split_dots
split_dots_last [] h = refl
split_dots_last (c ∷ a) h = elim (Bool-cases (c == b'.')) [
  | inl e ↦ absurd (h.0 (ground (arith, e)))
  | inr e ↦ rw e (ap (add_first c) (split_dots_last a h.1))
]

pub split_dots_three :
    (a b c : Text)
    → IsSegment a
    → IsSegment b
    → IsSegment c
    → split_dots (a ++ (b'.' ∷ (b ++ (b'.' ∷ c)))) ≡ a ∷ b ∷ c ∷ []
split_dots_three a b c ha hb hc =
    split_dots-cons a (b ++ (b'.' ∷ c)) ha
    ∙ ap (λ z. a ∷ z) (split_dots-cons b c hb ∙ ap (λ z. b ∷ z) (split_dots_last c hc))

-- The text that a split came from.
abbrev pub join_dots : List Text → Text
join_dots [] = []
join_dots (a ∷ []) = a
join_dots (a ∷ b ∷ ss) = a ++ (b'.' ∷ join_dots (b ∷ ss))

join-add_first :
    (c : ℕ) (a : Text) (ss : List Text) → join_dots (add_first c (a ∷ ss)) ≡ c ∷ join_dots (a ∷ ss)
join-add_first c a [] = refl
join-add_first c a (b ∷ ss) = refl

-- A split has a first segment.
split_dots-cases : (s : Text) → (a : Text) × (ss : List Text) × (split_dots s ≡ a ∷ ss)
unfolding split_dots
split_dots-cases [] = ([], [], refl)
split_dots-cases (c ∷ s) = elim (Bool-cases (c == b'.')) [
  | inl e ↦ ([], split_dots s, rw e)
  | inr e ↦ let (a, ss, q) = split_dots-cases s in (c ∷ a, ss, rw e (ap (add_first c) q))
]

pub join-split_dots : (s : Text) → join_dots (split_dots s) ≡ s
unfolding split_dots
join-split_dots [] = refl
join-split_dots (c ∷ s) =
    let (a, ss, q) = split_dots-cases s in
    let ih : join_dots (a ∷ ss) ≡ s = ap join_dots (sym q) ∙ join-split_dots s in
    elim (Bool-cases (c == b'.')) [
      | inl e ↦ rw e (ap (λ z. join_dots ([] ∷ z)) q ∙ ap₂ ◌∷◌ (ground (arith, e)) ih)
      | inr e ↦ rw e (ap (λ z. join_dots (add_first c z)) q ∙ join-add_first c a ss ∙ ap (◌∷◌ c) ih)
    ]
