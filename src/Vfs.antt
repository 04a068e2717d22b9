-- ===== src/Vfs.antt =====
-- internal/vfs/vfs.go: the file system in memory. `filepath.Clean` is a parameter; `filepath.Dir` and
-- `filepath.Base` are called on its results only, and are written out for such paths.
pub mod Paths
pub mod Directories
pub mod Tree
pub mod Contents
pub mod Listing
pub mod Order
use mcpcheck.Prelude.{
  ℕ, zero, suc, ◌+◌, Bool, true, false, ◌&&◌, ◌||◌, not, List, [], ◌∷◌, ◌++◌, Option, none, some,
  Text, ◌=ₜ◌, codes, has_prefix, length, any, sort, member, text_lt, if◌then◌else◌, Result, ok, err,
  get_key, put_key, delete_key,
}
use mcpcheck.Vfs.Paths.{dir_of, base_of, is_root, relative_child}

-- `memEntry`
pub record MemEntry : Type 0 where
  pub bytes : Text
  pub perm : ℕ
  pub dir : Bool
  pub mod_time : ℕ

abbrev pub Files : Type 0
Files = List (Text × MemEntry)

-- `fs.PathError`
pub data Cause : Type 0 where
  not_exist : Cause
  is_directory : Cause
  not_directory : Cause
  not_empty : Cause

pub record PathError : Type 0 where
  pub op : Text
  pub path : Text
  pub cause : Cause

abbrev pub path_error : Text → Text → Cause → PathError
path_error op path cause = record { op = op; path = path; cause = cause }

-- `NewMem`
abbrev pub new_mem : Files
new_mem = (codes ".", record { bytes = []; perm = 493; dir = true; mod_time = 0 }) ∷ []

abbrev pub is_dir_at : Option MemEntry → Bool
is_dir_at none = false
is_dir_at (some e) = e.dir

-- The entry that `mkdirAllLocked` makes.
abbrev pub made_dir : ℕ → ℕ → MemEntry
made_dir perm now = record { bytes = []; perm = perm; dir = true; mod_time = now }

-- The entry that `WriteFile` makes.
abbrev pub file_entry : ℕ → Text → ℕ → MemEntry
file_entry now bytes perm = record { bytes = bytes; perm = perm; dir = false; mod_time = now }

-- The recursion of `mkdirAllLocked`; `none` means that the fuel ran out. `clock` is what the clock shows when
-- the entry at a path is made.
abbrev pub add_dir :
    Text → ℕ → ℕ → Option (Files × Option PathError) → Option (Files × Option PathError)
add_dir clean perm now none = none
add_dir clean perm now (some (m, some e)) = some (m, some e)
add_dir clean perm now (some (m, none)) = some (put_key clean (made_dir perm now) m, none)

abbrev pub check_dir : Text → MemEntry → Files → Option (Files × Option PathError)
check_dir clean e m =
    some (m, if e.dir then none else some (path_error (codes "mkdir") clean not_directory))

unfoldable pub mkdir_all_locked :
    (Text → ℕ) → ℕ → Text → ℕ → Files → Option (Files × Option PathError)
mkdir_all_locked clock zero clean perm m = none
mkdir_all_locked clock (suc fuel) clean perm m =
    if is_root clean || clean =ₜ [] then some (m, none) else elim (get_key clean m) [
      | some e ↦ check_dir clean e m
      | none ↦ add_dir clean perm (clock clean) (mkdir_all_locked clock fuel (dir_of clean) perm m)
    ]

-- The loop of `Remove` over the entries.
abbrev pub has_child : Text → Text → Files → Bool
has_child clean prefix m = any (λ p. not (p.0 =ₜ clean) && has_prefix (p.0) prefix) m

-- The name that the loop of `ReadDir` takes from a path.
unfoldable pub child_of : Text → Text → Text → Option Text
child_of clean prefix p = if p =ₜ clean then none else relative_child p prefix

abbrev pub add_child :
    Option Text
    → List Text
    → MemEntry
    → (List Text → List (Text × MemEntry))
    → List (Text × MemEntry)
add_child none seen e rest = rest seen
add_child (some name) seen e rest =
    if member name seen then rest seen else (name, e) ∷ rest (name ∷ seen)

-- The loop of `ReadDir`; `seen` are the names that were added.
unfoldable pub children_from : Text → Text → List Text → Files → List (Text × MemEntry)
children_from clean prefix seen [] = []
children_from clean prefix seen ((p, e) ∷ m) =
    add_child (child_of clean prefix p) seen e (λ s. children_from clean prefix s m)

-- `assertReadDirTarget`
abbrev pub listed : Option MemEntry → Text → Option PathError
listed none path = some (path_error (codes "open") path not_exist)
listed (some e) path =
    if e.dir then none else some (path_error (codes "fdopendir") path not_directory)

abbrev pub list_error : Text → Text → Files → Option PathError
list_error path clean m = if clean =ₜ codes "." then none else listed (get_key clean m) path

module _ (clean : Text → Text) where
  abbrev pub read_entry : Text → Option MemEntry → Result PathError Text
  read_entry path none = err (path_error (codes "open") path not_exist)
  read_entry path (some e) =
      if e.dir then err (path_error (codes "read") path is_directory) else ok e.bytes

  -- `ReadFile`
  unfoldable pub read_file : Text → Files → Result PathError Text
  read_file path m = read_entry path (get_key (clean path) m)

  -- `WriteFile`
  unfoldable pub write_file : ℕ → Text → Text → ℕ → Files → Files × Option PathError
  write_file now path bytes perm m =
      let c = clean path in
      if is_root c || is_dir_at (get_key c m)
      then (m, some (path_error (codes "write") path is_directory))
      else if not (is_root (dir_of c)) && not (is_dir_at (get_key (dir_of c) m))
      then (m, some (path_error (codes "open") path not_exist))
      else (put_key c (file_entry now bytes perm) m, none)

  abbrev pub stat_entry : Text → Option MemEntry → Result PathError (Text × MemEntry)
  stat_entry path none = err (path_error (codes "stat") path not_exist)
  stat_entry path (some e) = ok (base_of (clean path), e)

  -- `Stat`: a `memInfo`.
  unfoldable pub stat : Text → Files → Result PathError (Text × MemEntry)
  stat path m = stat_entry path (get_key (clean path) m)

  -- `MkdirAll`, with a fuel that is enough.
  unfoldable pub mkdir_all : (Text → ℕ) → Text → ℕ → Files → Option (Files × Option PathError)
  mkdir_all clock path perm m = mkdir_all_locked clock (length (clean path) + 1) (clean path) perm m

  abbrev pub remove_entry : Text → Text → Option MemEntry → Files → Files × Option PathError
  remove_entry path c none m = (m, some (path_error (codes "remove") path not_exist))
  remove_entry path c (some e) m =
      if e.dir && has_child c (c ++ codes "/") m
      then (m, some (path_error (codes "remove") path not_empty))
      else (delete_key c m, none)

  -- `Remove`
  unfoldable pub remove : Text → Files → Files × Option PathError
  remove path m = remove_entry path (clean path) (get_key (clean path) m) m

  abbrev pub dir_prefix : Text → Text
  dir_prefix c = if c =ₜ codes "." then [] else c ++ codes "/"

  abbrev pub list_dir : Option PathError → Text → Files → Result PathError (List (Text × MemEntry))
  list_dir (some e) c m = err e
  list_dir none c m = ok (sort (λ a b. text_lt (a.0) (b.0)) (children_from c (dir_prefix c) [] m))

  -- `ReadDir`
  unfoldable pub read_dir : Text → Files → Result PathError (List (Text × MemEntry))
  read_dir path m = list_dir (list_error path (clean path) m) (clean path) m
