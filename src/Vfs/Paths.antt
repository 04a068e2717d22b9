-- ===== src/Vfs/Paths.antt =====
-- The functions of `filepath` on clean paths, and `relativeChild`.
use mcpcheck.Prelude.{
  ℕ, ◌<◌, ◌≡◌, ◌⊎◌, refl, sym, ap, ap₂, ◌∙◌, inl, inr, Bool, true, false, ◌||◌, [], ◌∷◌, ◌++◌,
  Option, none, some, Text, ◌=ₜ◌, codes, has_prefix, length, length-append, append_assoc,
  text_eq_refl, if◌then◌else◌, ◌==◌, arith, Option-cases, Bool-cases,
}

-- What stands before the last separator and behind it.
abbrev split_at : ℕ → Text → Option (Text × Text) → Option (Text × Text)
split_at c s (some (d, b)) = some (c ∷ d, b)
split_at c s none = if c == b'/' then some ([], s) else none

unfoldable pub split_last : Text → Option (Text × Text)
split_last [] = none
split_last (c ∷ s) = split_at c s (split_last s)

abbrev pub dir_part : Option (Text × Text) → Text
dir_part none = codes "."
dir_part (some ([], b)) = codes "/"
dir_part (some (c ∷ d, b)) = c ∷ d

-- `filepath.Dir` of a path that is clean.
unfoldable pub dir_of : Text → Text
dir_of path = dir_part (split_last path)

abbrev pub base_part : Text → Option (Text × Text) → Text
base_part path none = path
base_part path (some (d, [])) = path
base_part path (some (d, c ∷ b)) = c ∷ b

-- `filepath.Base` of a path that is clean: the only one that ends in a separator is the root.
unfoldable pub base_of : Text → Text
base_of path = base_part path (split_last path)

-- `clean == "." || clean == "/"`
unfoldable pub is_root : Text → Bool
is_root path = path =ₜ codes "." || path =ₜ codes "/"

-- What stands before the first separator.
unfoldable pub first_name : Text → Text
first_name [] = []
first_name (c ∷ s) = if c == b'/' then [] else c ∷ first_name s

-- `p[len(prefix):]` for a prefix of `p`.
unfoldable pub behind : Text → Text → Text
behind [] s = s
behind (c ∷ t) [] = []
behind (c ∷ t) (d ∷ s) = behind t s

-- `relativeChild`
abbrev pub child_name : Text → Option Text
child_name [] = none
child_name (c ∷ s) = some (c ∷ s)

unfoldable pub relative_child : Text → Text → Option Text
relative_child p prefix =
    if has_prefix p prefix then child_name (first_name (behind prefix p)) else none

split_at-append :
    (c : ℕ) (s : Text) (o : Option (Text × Text))
    → ((e b : Text) → o ≡ some (e, b) → s ≡ e ++ (b'/' ∷ b))
    → (d b : Text) → split_at c s o ≡ some (d, b)
    → c ∷ s ≡ d ++ (b'/' ∷ b)
split_at-append c s (some (e, b')) ih d b h =
    let q : c ∷ e ≡ d = ground (arith, h) in
    let r : b' ≡ b = ground (arith, h) in
    ap (◌∷◌ c) (ih e b' refl) ∙ ap₂ (λ x y. x ++ (b'/' ∷ y)) q r
split_at-append c s none ih d b h = elim (Bool-cases (c == b'/')) [
  | inl e ↦
      let q : ◌≡◌ {A = Option (Text × Text)} (some ([], s)) (some (d, b)) = rw e at h in
      let p : [] ≡ d = ground (arith, q) in
      let r : s ≡ b = ground (arith, q) in
      let n : c ≡ b'/' = ground (arith, e) in ap₂ ◌∷◌ n r ∙ ap (λ x. x ++ (b'/' ∷ b)) p
  | inr e ↦ let q : ◌≡◌ {A = Option (Text × Text)} none (some (d, b)) = rw e at h in absurd (cc)
]

pub split_last-append : (path d b : Text) → split_last path ≡ some (d, b) → path ≡ d ++ (b'/' ∷ b)
unfolding split_last
split_last-append [] d b h = absurd (cc)
split_last-append (c ∷ s) d b h =
    split_at-append c s (split_last s) (λ e b q. split_last-append s e b q) d b h

-- The parent of a path is one of the roots, or the path goes on behind it with a separator.
pub dir_of-cases :
    (path : Text)
    → (is_root (dir_of path) ≡ true) ⊎ ((b : Text) × (path ≡ dir_of path ++ (b'/' ∷ b)))
unfolding dir_of is_root
dir_of-cases path = elim (Option-cases (split_last path)) [
  | inl e ↦ inl (ground (arith, ap dir_part e, text_eq_refl (codes ".")))
  | inr (([], b), e) ↦ inl (ground (arith, ap dir_part e, text_eq_refl (codes "/")))
  | inr ((c ∷ d, b), e) ↦
      inr (b, split_last-append path (c ∷ d) b e ∙ ap (λ z. z ++ (b'/' ∷ b)) (sym (ap dir_part e)))
]

pub dir_of-not-empty : (path : Text) → (dir_of path =ₜ []) ≡ false
unfolding dir_of ◌=ₜ◌
dir_of-not-empty path = go (split_last path)
  where
    go : (o : Option (Text × Text)) → (dir_part o =ₜ []) ≡ false
    go none = refl
    go (some ([], b)) = refl
    go (some (c ∷ d, b)) = refl

has_prefix_self : (s t : Text) → has_prefix (s ++ t) s ≡ true
unfolding has_prefix
has_prefix_self [] [] = refl
has_prefix_self [] (c ∷ t) = refl
has_prefix_self (c ∷ s) t = ground (arith, has_prefix_self s t)

pub dir_of-has_prefix :
    (path : Text)
    → is_root (dir_of path) ≡ false
    → has_prefix path (dir_of path ++ codes "/") ≡ true
dir_of-has_prefix path h = elim (dir_of-cases path) [
  | inl e ↦ absurd (cc)
  | inr (b, e) ↦
      ap (λ z. has_prefix z (dir_of path ++ codes "/"))
        (e ∙ sym (append_assoc (dir_of path) (codes "/") b))
      ∙ has_prefix_self (dir_of path ++ codes "/") b
]

pub dir_of_shorter :
    (path : Text) → is_root (dir_of path) ≡ false → length (dir_of path) < length path
dir_of_shorter path h = elim (dir_of-cases path) [
  | inl e ↦ absurd (cc)
  | inr (b, e) ↦ omega (arith, ap length e, length-append (dir_of path) (b'/' ∷ b))
]
