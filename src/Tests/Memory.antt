-- ===== src/Tests/Memory.antt =====
-- The file system in memory on a small tree.
use mcpcheck.Prelude.{
  ℕ, ◌≡◌, refl, List, [], ◌∷◌, Option, some, Text, ◌=ₜ◌, codes, has_prefix, In, IsSorted, ok,
  get_key, member, sort, insert,
}
use mcpcheck.Vfs.{
  MemEntry, Files, PathError, made_dir, file_entry, mkdir_all, write_file, read_dir, new_mem,
  children_from, child_of,
}
use mcpcheck.Vfs.Paths.{relative_child, first_name, behind}
use mcpcheck.Vfs.Directories.{Outcome, mkdir_all-Outcome}
use mcpcheck.Vfs.Tree.{IsTree, Command, writes, makes, removes, exec_all, exec_all-IsTree}
use mcpcheck.Vfs.Contents.{Written, refuses, write_file_lem}
use mcpcheck.Vfs.Listing.{Child, name_lt, read_dir_lem}

-- Paths that are clean already.
abbrev same_path : Text → Text
same_path path = path

abbrev no_clock : Text → ℕ
no_clock path = 0

abbrev small_tree : Files
small_tree =
    (codes ".", made_dir 493 0)
    ∷ (codes "a", made_dir 493 0)
    ∷ (codes "a/b", file_entry 0 [] 420)
    ∷ []

mkdir_all_example :
    (r : Files × Option PathError) × (mkdir_all same_path no_clock (codes "a/c/d") 493 small_tree
      ≡ some r)
    × Outcome (codes "a/c/d") small_tree r
mkdir_all_example = mkdir_all-Outcome same_path no_clock (codes "a/c/d") 493 small_tree

abbrev small_calls : List Command
small_calls =
    makes no_clock (codes "a") 493 ∷ writes 0 (codes "a/b") [] 420 ∷ removes (codes "a") ∷ []

exec_all_example : IsTree (exec_all same_path small_calls new_mem)
exec_all_example = exec_all-IsTree same_path small_calls

write_file_example :
    Written same_path
      (codes "a/x")
      (codes "hi")
      small_tree
      (write_file same_path 7 (codes "a/x") (codes "hi") 420 small_tree)
      (refuses (codes "a/x") small_tree)
write_file_example = write_file_lem same_path 7 (codes "a/x") (codes "hi") 420 small_tree

small_listing :
    read_dir same_path (codes "a") small_tree ≡ ok ((codes "b", file_entry 0 [] 420) ∷ [])
unfolding read_dir get_key ◌=ₜ◌ children_from child_of relative_child has_prefix first_name behind
    member sort insert
small_listing = refl

read_dir_example :
    IsSorted name_lt ((codes "b", file_entry 0 [] 420) ∷ [])
    × ((n : Text) (e : MemEntry)
        → In {A = Text × MemEntry} (n, e) ((codes "b", file_entry 0 [] 420) ∷ [])
        → Child (codes "a") (codes "a/") small_tree n e)
    × ((n : Text) (e : MemEntry)
        → Child (codes "a") (codes "a/") small_tree n e
        → (f : MemEntry) × In {A = Text × MemEntry} (n, f) ((codes "b", file_entry 0 [] 420) ∷ []))
unfolding ◌=ₜ◌
read_dir_example =
    read_dir_lem same_path (codes "a") small_tree ((codes "b", file_entry 0 [] 420) ∷ [])
      small_listing
