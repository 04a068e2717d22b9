-- ===== src/Vfs/Tree.antt =====
-- The invariant of the file system in memory, and what is read back.
use mcpcheck.Prelude.{
  ℕ, zero, suc, ◌+◌, ◌≡◌, refl, ap, ◌∙◌, inl, inr, Bool, true, false, ◌||◌, ◌&&◌, not, List, [],
  ◌∷◌, ◌++◌, Option, none, some, Text, ◌=ₜ◌, text_eq_iff, codes, has_prefix, length, any_iff, arith,
  Bool-cases, get_key, put_key, delete_key, get_key-put_key, get_key-delete_key, get_key-In,
}
use mcpcheck.Vfs.{
  MemEntry, Files, PathError, is_dir_at, made_dir, add_dir, check_dir, mkdir_all_locked, mkdir_all,
  write_file, remove, remove_entry, has_child, new_mem,
}
use mcpcheck.Vfs.Paths.{dir_of, is_root, dir_of-not-empty, dir_of-has_prefix}
use mcpcheck.Vfs.Directories.{Returns, Suffices, Suffices-dir_of, mkdir_all_locked-Returns}

-- A path's parent is a root or a directory that is there.
abbrev pub has_parent : Text → Files → Bool
has_parent p m = is_root p || is_root (dir_of p) || is_dir_at (get_key (dir_of p) m)

pub record IsTree (m : Files) : Type 0 where
  pub parents : (p : Text) (e : MemEntry) → get_key p m ≡ some e → has_parent p m ≡ true

-- A new entry at a path with a parent, where no file takes the place of a directory.
put_key-IsTree :
    (c : Text) (e : MemEntry) (m : Files)
    → (is_dir_at (get_key c m) ≡ true → e.dir ≡ true)
    → has_parent c m ≡ true
    → IsTree m
    → IsTree (put_key c e m)
put_key-IsTree c e m keeps h t = record {
  parents = λ p f k. ground (
    arith,
    get_key-put_key c p e m,
    get_key-put_key c (dir_of p) e m,
    get_key-put_key c (dir_of c) e m,
    text_eq_iff c p,
    text_eq_iff c (dir_of p),
    t.parents p f,
  );
}

-- What `mkdirAllLocked` returns is a tree.
abbrev TreeOf : Option (Files × Option PathError) → Type 0
TreeOf none = ⊥
TreeOf (some r) = IsTree r.0

add_dir-TreeOf :
    (clean : Text) (perm now : ℕ) (m : Files) (o : Option (Files × Option PathError))
    → Returns (dir_of clean) m o
    → TreeOf o
    → TreeOf (add_dir clean perm now o)
add_dir-TreeOf clean perm now m none r t = absurd t
add_dir-TreeOf clean perm now m (some (m', some e)) r t = t
add_dir-TreeOf clean perm now m (some (m', none)) r t =
    put_key-IsTree clean (made_dir perm now) m' (λ _. refl)
      (ground (arith, r.1, dir_of-not-empty clean)) t

mkdir_all_locked-TreeOf :
    (clock : Text → ℕ) (fuel : ℕ) (clean : Text) (perm : ℕ) (m : Files)
    → Suffices fuel clean
    → IsTree m
    → TreeOf (mkdir_all_locked clock fuel clean perm m)
unfolding mkdir_all_locked
mkdir_all_locked-TreeOf clock zero clean perm m h t = absurd (ground arith)
mkdir_all_locked-TreeOf clock (suc fuel) clean perm m h t =
    elim (Bool-cases (is_root clean || clean =ₜ [])) [
      | inl a ↦ rw a t
      | inr a ↦
          let s = Suffices-dir_of fuel clean a h in
          rw a (
            found (get_key clean m) (mkdir_all_locked-Returns clock fuel (dir_of clean) perm m s)
              (mkdir_all_locked-TreeOf clock fuel (dir_of clean) perm m s t))
    ]
  where
    found :
        (o : Option MemEntry)
        → Returns (dir_of clean) m (mkdir_all_locked clock fuel (dir_of clean) perm m)
        → TreeOf (mkdir_all_locked clock fuel (dir_of clean) perm m)
        → TreeOf (elim o [
          | some e ↦ check_dir clean e m
          | none ↦
              add_dir clean perm (clock clean) (mkdir_all_locked clock fuel (dir_of clean) perm m)
        ])
    found (some e) r u = t
    found none r u = add_dir-TreeOf clean perm (clock clean) m _ r u

has_child-of :
    (c p : Text) (e : MemEntry) (m : Files)
    → get_key p m ≡ some e
    → (p =ₜ c) ≡ false
    → has_prefix p (c ++ codes "/") ≡ true
    → has_child c (c ++ codes "/") m ≡ true
has_child-of c p e m h n q =
    (any_iff (λ k. not (k.0 =ₜ c) && has_prefix (k.0) (c ++ codes "/")) m).1
      ((p, e), get_key-In p e m h, ground arith)

delete_key-IsTree :
    (c : Text) (e : MemEntry) (m : Files)
    → get_key c m ≡ some e
    → (e.dir && has_child c (c ++ codes "/") m) ≡ false
    → IsTree m
    → IsTree (delete_key c m)
delete_key-IsTree c e m h a t = record {
  parents = λ p f k.
      let n : (p =ₜ c) ≡ false =
        ground (arith, get_key-delete_key c p m, text_eq_iff c p, text_eq_iff p c) in
      let kept : get_key p m ≡ some f = ground (arith, get_key-delete_key c p m, text_eq_iff c p) in
      elim (Bool-cases (c =ₜ dir_of p)) [
        | inr d ↦ ground (arith, get_key-delete_key c (dir_of p) m, t.parents p f)
        | inl d ↦ elim (Bool-cases (is_root (dir_of p))) [
          | inl r ↦ ground arith
          | inr r ↦
              let q : c ≡ dir_of p = (text_eq_iff c (dir_of p)).0 d in
              let prefixed : has_prefix p (c ++ codes "/") ≡ true =
                ap (λ z. has_prefix p (z ++ codes "/")) q ∙ dir_of-has_prefix p r in
              ground (
                arith,
                has_child-of c p f m kept n prefixed,
                ap (λ z. get_key z m) q,
                t.parents p f,
              )
        ]
      ];
}

module _ (clean : Text → Text) where
  write_file-IsTree :
      (now : ℕ) (path bytes : Text) (perm : ℕ) (m : Files)
      → IsTree m
      → IsTree (write_file clean now path bytes perm m).0
  unfolding write_file
  write_file-IsTree now path bytes perm m t =
      elim (Bool-cases (is_root (clean path) || is_dir_at (get_key (clean path) m))) [
        | inl a ↦ rw a t
        | inr a ↦
            rw a
              (elim (Bool-cases (
                not (is_root (dir_of (clean path)))
                && not (is_dir_at (get_key (dir_of (clean path)) m)))) [
                  | inl b ↦ rw b t
                  | inr b ↦ rw b (
                      put_key-IsTree (clean path) _ m (λ d. absurd (ground (arith))) (ground arith)
                        t)
                ])
      ]

  remove_entry-IsTree :
      (path c : Text) (o : Option MemEntry) (m : Files)
      → get_key c m ≡ o
      → IsTree m
      → IsTree (remove_entry clean path c o m).0
  remove_entry-IsTree path c none m h t = t
  remove_entry-IsTree path c (some e) m h t =
      elim (Bool-cases (e.dir && has_child c (c ++ codes "/") m)) [
        | inl a ↦ rw a t
        | inr a ↦ rw a (delete_key-IsTree c e m h a t)
      ]

-- The calls that change the file system, each with the time that it reads.
pub data Command : Type 0 where
  writes : ℕ → Text → Text → ℕ → Command
  makes : (Text → ℕ) → Text → ℕ → Command
  removes : Text → Command

abbrev pub changed_by : Files → Option (Files × Option PathError) → Files
changed_by m none = m
changed_by m (some r) = r.0

changed_by-IsTree :
    (m : Files) (o : Option (Files × Option PathError))
    → IsTree m
    → TreeOf o
    → IsTree (changed_by m o)
changed_by-IsTree m none t u = t
changed_by-IsTree m (some r) t u = u

new_mem-IsTree : IsTree new_mem
unfolding get_key is_root
new_mem-IsTree = record {
  parents = λ p e h. ground (arith, text_eq_iff (codes ".") p, text_eq_iff p (codes "."));
}

module _ (clean : Text → Text) where
  abbrev pub exec : Command → Files → Files
  exec (writes now path bytes perm) m = (write_file clean now path bytes perm m).0
  exec (makes clock path perm) m = changed_by m (mkdir_all clean clock path perm m)
  exec (removes path) m = (remove clean path m).0

  pub exec_all : List Command → Files → Files
  exec_all [] m = m
  exec_all (c ∷ cs) m = exec_all cs (exec c m)

  exec-IsTree : (c : Command) (m : Files) → IsTree m → IsTree (exec c m)
  unfolding remove mkdir_all
  exec-IsTree (writes now path bytes perm) m t = write_file-IsTree clean now path bytes perm m t
  exec-IsTree (makes clock path perm) m t = changed_by-IsTree m _ t (
      mkdir_all_locked-TreeOf clock (length (clean path) + 1) (clean path) perm m
        (inr (omega arith)) t)
  exec-IsTree (removes path) m t =
      remove_entry-IsTree clean path (clean path) (get_key (clean path) m) m refl t

  exec_all-IsTree_from : (cs : List Command) (m : Files) → IsTree m → IsTree (exec_all cs m)
  unfolding exec_all
  exec_all-IsTree_from [] m t = t
  exec_all-IsTree_from (c ∷ cs) m t = exec_all-IsTree_from cs (exec c m) (exec-IsTree c m t)

  -- Whatever calls of `WriteFile`, `MkdirAll` and `Remove` follow each other from `NewMem`, whether they
  -- fail or not, the parent of each entry but the roots is a root or a directory that is there.
  pub exec_all-IsTree : (cs : List Command) → IsTree (exec_all cs new_mem)
  exec_all-IsTree cs = exec_all-IsTree_from cs new_mem new_mem-IsTree
