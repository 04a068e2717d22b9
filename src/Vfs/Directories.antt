-- ===== src/Vfs/Directories.antt =====
-- `MkdirAll`: it ends, makes the directory, or changes nothing.
use mcpcheck.Prelude.{
  ℕ, zero, suc, ◌+◌, ◌<◌, ◌≡◌, ◌⊎◌, refl, sym, ap, ◌∙◌, inl, inr, Bool, true, false, ◌||◌, [], ◌∷◌,
  Option, none, some, Text, ◌=ₜ◌, text_eq_iff, text_eq_refl, codes, length, if◌then◌else◌, arith,
  Bool-cases, get_key, get_key-put_key,
}
use mcpcheck.Vfs.{
  MemEntry, Files, not_directory, PathError, path_error, is_dir_at, made_dir, add_dir, check_dir,
  mkdir_all_locked, mkdir_all,
}
use mcpcheck.Vfs.Paths.{dir_of, is_root, dir_of_shorter}

-- Nothing of `m` is lost or changed in `m'`.
abbrev pub Extends : Files → Files → Type 0
Extends m m' = (p : Text) (e : MemEntry) → get_key p m ≡ some e → get_key p m' ≡ some e

-- What a call for a clean path returns: the path is a directory and the rest is as before, or some
-- path is a file and nothing was changed.
abbrev pub Outcome : Text → Files → Files × Option PathError → Type 0
Outcome clean m (m', none) =
    Extends m m' × ((is_root clean || clean =ₜ [] || is_dir_at (get_key clean m')) ≡ true)
Outcome clean m (m', some e) =
    (m' ≡ m)
    × (e.cause ≡ not_directory)
    × ((f : MemEntry) × (get_key e.path m ≡ some f) × (f.dir ≡ false))

abbrev pub Returns : Text → Files → Option (Files × Option PathError) → Type 0
Returns clean m none = ⊥
Returns clean m (some r) = Outcome clean m r

check_dir-Returns :
    (clean : Text) (e : MemEntry) (m : Files)
    → get_key clean m ≡ some e
    → Returns clean m (check_dir clean e m)
check_dir-Returns clean e m h = go e.dir refl
  where
    go :
        (b : Bool)
        → e.dir ≡ b
        → Outcome clean m
            (m, if b then none else some (path_error (codes "mkdir") clean not_directory))
    go true d = (λ p f k. k, ground (arith, h, ap is_dir_at h, d))
    go false d = (refl, refl, (e, h, d))

add_dir-Returns :
    (clean : Text) (perm now : ℕ) (m : Files) (o : Option (Files × Option PathError))
    → get_key clean m ≡ none
    → Returns (dir_of clean) m o
    → Returns clean m (add_dir clean perm now o)
add_dir-Returns clean perm now m none h r = absurd r
add_dir-Returns clean perm now m (some (m', some e)) h r = r
add_dir-Returns clean perm now m (some (m', none)) h r = (
  λ p e k. get_key-put_key clean p _ m' ∙ elim (Bool-cases (clean =ₜ p)) [
    | inl q ↦
        let f : none ≡ some e = sym h ∙ ap (λ z. get_key z m) ((text_eq_iff clean p).0 q) ∙ k in
        absurd (cc)
    | inr q ↦ ap (λ b. if b then some (made_dir perm now) else get_key p m') q ∙ r.0 p e k
  ],
  ground (arith, get_key-put_key clean clean (made_dir perm now) m', text_eq_refl clean),
)

not_empty_length : (s : Text) → (s =ₜ []) ≡ false → 0 < length s
unfolding ◌=ₜ◌
not_empty_length [] h = cc
not_empty_length (c ∷ s) h = omega arith

-- The fuel is enough for a path.
abbrev pub Suffices : ℕ → Text → Type 0
Suffices fuel clean = ((is_root clean ≡ true) × (0 < fuel)) ⊎ (length clean < fuel)

pub Suffices-dir_of :
    (fuel : ℕ) (clean : Text)
    → (is_root clean || clean =ₜ []) ≡ false
    → Suffices (suc fuel) clean
    → Suffices fuel (dir_of clean)
Suffices-dir_of fuel clean a (inl (r, _)) = absurd (ground (arith))
Suffices-dir_of fuel clean a (inr l) = elim (Bool-cases (is_root (dir_of clean))) [
  | inl r ↦ inl (r, ground (arith, not_empty_length clean))
  | inr r ↦ inr (omega (arith, dir_of_shorter clean r))
]

pub mkdir_all_locked-Returns :
    (clock : Text → ℕ) (fuel : ℕ) (clean : Text) (perm : ℕ) (m : Files)
    → Suffices fuel clean
    → Returns clean m (mkdir_all_locked clock fuel clean perm m)
unfolding mkdir_all_locked
mkdir_all_locked-Returns clock zero clean perm m h = absurd (ground arith)
mkdir_all_locked-Returns clock (suc fuel) clean perm m h =
    elim (Bool-cases (is_root clean || clean =ₜ [])) [
      | inl a ↦ rw a (λ p f k. k, ground arith)
      | inr a ↦ rw a (
          found (get_key clean m) refl (
            mkdir_all_locked-Returns clock fuel (dir_of clean) perm m
              (Suffices-dir_of fuel clean a h)))
    ]
  where
    found :
        (o : Option MemEntry)
        → get_key clean m ≡ o
        → Returns (dir_of clean) m (mkdir_all_locked clock fuel (dir_of clean) perm m)
        → Returns clean m (elim o [
          | some e ↦ check_dir clean e m
          | none ↦
              add_dir clean perm (clock clean) (mkdir_all_locked clock fuel (dir_of clean) perm m)
        ])
    found (some e) k r = check_dir-Returns clean e m k
    found none k r = add_dir-Returns clean perm (clock clean) m _ k r

-- `MkdirAll` returns. Either it reports no error: the cleaned path is a directory then, or a root or empty, and
-- every entry that was there is unchanged; or its error is that an entry that is there, at the path that
-- the error names, is not a directory, and nothing has changed.
pub mkdir_all-Outcome :
    (clean : Text → Text) (clock : Text → ℕ) (path : Text) (perm : ℕ) (m : Files)
    → (r : Files × Option PathError) × (mkdir_all clean clock path perm m ≡ some r)
      × Outcome (clean path) m r
unfolding mkdir_all
mkdir_all-Outcome clean clock path perm m =
    go (mkdir_all_locked clock (length (clean path) + 1) (clean path) perm m) refl (
      mkdir_all_locked-Returns clock (length (clean path) + 1) (clean path) perm m
        (inr (omega arith)))
  where
    go :
        (o : Option (Files × Option PathError))
        → mkdir_all_locked clock (length (clean path) + 1) (clean path) perm m ≡ o
        → Returns (clean path) m o
        → (r : Files × Option PathError) × (mkdir_all_locked clock
              (length (clean path) + 1)
              (clean path)
              perm
              m
            ≡ some r)
          × Outcome (clean path) m r
    go none e h = absurd h
    go (some r) e h = (r, e, h)
