-- ===== src/Vfs/Contents.antt =====
-- What `WriteFile` and `Remove` do to what is read.
use mcpcheck.Prelude.{
  ℕ, ◌≡◌, ◌⊎◌, refl, sym, ap, ◌∙◌, inl, inr, Bool, true, false, ◌||◌, ◌&&◌, not, ◌++◌, Option, none,
  some, Text, ◌=ₜ◌, text_eq_iff, text_eq_refl, codes, has_prefix, any_iff, In, if◌then◌else◌, ok,
  err, arith, Bool-cases, get_key, delete_key, get_key-put_key, get_key-delete_key,
}
use mcpcheck.Vfs.{
  MemEntry, Files, Cause, not_exist, is_directory, not_empty, PathError, path_error, is_dir_at,
  write_file, remove, remove_entry, has_child, read_file, read_entry, file_entry, stat, stat_entry,
}
use mcpcheck.Vfs.Paths.{dir_of, is_root}
use mcpcheck.Vfs.Tree.{has_parent}

-- Why a path cannot be written.
abbrev pub refuses : Text → Files → Option Cause
refuses c m =
    if is_root c || is_dir_at (get_key c m)
    then some is_directory
    else if has_parent c m
    then none
    else some not_exist

-- What a call of `WriteFile` leaves.
abbrev pub Written :
    (Text → Text) → Text → Text → Files → Files × Option PathError → Option Cause → Type 0
Written clean path bytes m r none =
    (r.1 ≡ none)
    × (read_file clean path r.0 ≡ ok bytes)
    × ((q : Text) → (clean path =ₜ clean q) ≡ false → read_file clean q r.0 ≡ read_file clean q m)
Written clean path bytes m r (some cause) = (op : Text) × (r ≡ (m, some (path_error op path cause)))

and_false : (a : Bool) {b : Bool} → b ≡ false → (a && b) ≡ false
and_false a h = ground arith

module _ (clean : Text → Text) where
  -- `WriteFile` fails with "is a directory" if the cleaned path is a root or a directory that is there, and
  -- else with "does not exist" if its parent is neither a root nor a directory that is there; it
  -- changes nothing then. Otherwise it succeeds: reading the path gives the data back, and reading a path that
  -- is not cleaned to the same gives what it gave before.
  pub write_file_lem :
      (now : ℕ) (path bytes : Text) (perm : ℕ) (m : Files)
      → Written clean path bytes m (write_file clean now path bytes perm m) (refuses (clean path) m)
  unfolding write_file read_file
  write_file_lem now path bytes perm m =
      elim (Bool-cases (is_root (clean path) || is_dir_at (get_key (clean path) m))) [
        | inl a ↦ rw a (codes "write", refl)
        | inr a ↦ elim (Bool-cases (has_parent (clean path) m)) [
          | inl b ↦
              let c : (not (is_root (dir_of (clean path)))
                    && not (is_dir_at (get_key (dir_of (clean path)) m)))
                  ≡ false =
                ground arith in
              rw (a, b, c)
                (
                  refl,
                  ap (read_entry clean path) (
                      get_key-put_key (clean path) (clean path) (file_entry now bytes perm) m
                      ∙ ap
                          (λ t.
                            if t then some (file_entry now bytes perm) else get_key (clean path) m)
                          (text_eq_refl (clean path))),
                  λ q n. ap (read_entry clean q) (
                      get_key-put_key (clean path) (clean q) (file_entry now bytes perm) m
                      ∙ ap
                          (λ t. if t then some (file_entry now bytes perm) else get_key (clean q) m)
                          n),
                )
          | inr b ↦
              let c : (not (is_root (dir_of (clean path)))
                    && not (is_dir_at (get_key (dir_of (clean path)) m)))
                  ≡ true =
                ground arith in
              rw (a, b, c) (codes "open", refl)
        ]
      ]

  -- What a call of `Remove` for a cleaned path does.
  abbrev pub Removed : Text → Text → Files → Option MemEntry → Type 0
  Removed path c m none =
      remove clean path m ≡ (m, some (path_error (codes "remove") path not_exist))
  Removed path c m (some e) =
      ((e.dir ≡ true)
        × ((p : Text) × (f : MemEntry) × In (p, f) m
            × ((p =ₜ c) ≡ false)
            × (has_prefix p (c ++ codes "/") ≡ true))
        × (remove clean path m ≡ (m, some (path_error (codes "remove") path not_empty))))
      ⊎ (((remove clean path m).1 ≡ none)
          × ((e.dir && has_child c (c ++ codes "/") m) ≡ false)
          × ((p : Text)
              → get_key p (remove clean path m).0 ≡ (if c =ₜ p then none else get_key p m)))

  removed :
      (path c : Text) (o : Option MemEntry) (m : Files)
      → c ≡ clean path
      → remove clean path m ≡ remove_entry clean path c o m
      → Removed path c m o
  removed path c none m e h = h
  removed path c (some e) m q h = elim (Bool-cases (e.dir && has_child c (c ++ codes "/") m)) [
    | inl a ↦
        let ((p, f), i, t) =
          (any_iff (λ k. not (k.0 =ₜ c) && has_prefix (k.0) (c ++ codes "/")) m).0 (ground arith) in
        inl (
          ground arith,
          (p, f, i, ground (arith, t), ground (arith, t)),
          h
              ∙ ap
                  (λ b.
                    if b
                    then (m, some (path_error (codes "remove") path not_empty))
                    else (delete_key c m, none))
                  a,
        )
    | inr a ↦
        let r : remove clean path m ≡ (delete_key c m, none) =
          h
          ∙ ap
              (λ b.
                if b
                then (m, some (path_error (codes "remove") path not_empty))
                else (delete_key c m, none))
              a in
        inr (ap (λ z. z.1) r, a, λ p. ap (λ z. get_key p (z.0)) r ∙ get_key-delete_key c p m)
  ]

  -- `Remove` fails with "does not exist" if nothing is there, and with "not empty" if a directory is there
  -- and some other entry's path goes on behind it with a separator; it changes nothing then. Otherwise
  -- the entry is gone after it and every other one is as before.
  pub remove_lem : (path : Text) (m : Files) → Removed path (clean path) m (get_key (clean path) m)
  unfolding remove
  remove_lem path m = removed path (clean path) (get_key (clean path) m) m refl refl

  remove-deletes :
      (path c : Text) (e : MemEntry) (m : Files)
      → c ≡ clean path
      → get_key c m ≡ some e
      → has_child c (c ++ codes "/") m ≡ false
      → remove clean path m ≡ (delete_key c m, none)
  unfolding remove
  remove-deletes path c e m q h n =
      ap (λ z. remove_entry clean path z (get_key z m) m) (sym q)
      ∙ ap (λ o. remove_entry clean path c o m) h
      ∙ ap
          (λ b.
            if b
            then (m, some (path_error (codes "remove") path not_empty))
            else (delete_key c m, none))
          (and_false e.dir n)

  -- Where a path is cleaned to ".", an entry is there and no path of an entry begins with "./" (no clean path
  -- does), `Remove` reports no error, however much the file system holds. `Stat` of the path says then that it
  -- does not exist, while every file at another path is read as before.
  pub remove_root :
      (path : Text) (e : MemEntry) (m : Files)
      → codes "." ≡ clean path
      → get_key (codes ".") m ≡ some e
      → has_child (codes ".") (codes "./") m ≡ false
      → ((remove clean path m).1 ≡ none)
        × (stat clean path (remove clean path m).0 ≡ err (path_error (codes "stat") path not_exist))
        × ((q : Text)
            → (codes "." =ₜ clean q) ≡ false
            → read_file clean q (remove clean path m).0 ≡ read_file clean q m)
  unfolding stat read_file
  remove_root path e m q h n =
      let r = remove-deletes path (codes ".") e m q h n in
      let gone : (p : Text)
          → get_key p (remove clean path m).0 ≡ (if codes "." =ₜ p then none else get_key p m) =
        λ p. ap (λ z. get_key p (z.0)) r ∙ get_key-delete_key (codes ".") p m in
      (
        ap (λ z. z.1) r,
        ap (stat_entry clean path) (
            gone (clean path)
            ∙ ap (λ b. if b then none else get_key (clean path) m)
                ((text_eq_iff (codes ".") (clean path)).1 q)),
        λ p d.
            ap (read_entry clean p)
              (gone (clean p) ∙ ap (λ b. if b then none else get_key (clean p) m) d),
      )
