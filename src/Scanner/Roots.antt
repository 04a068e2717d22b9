-- ===== src/Scanner/Roots.antt =====
-- Directories that `Load` takes without looking into them.
use mcpcheck.Prelude.{◌≡◌, inl, inr, Bool, true, false, [], Text, codes, ok, Bool-cases}
use mcpcheck.Scanner.Files.{dir, link, Nodes, walk}
use mcpcheck.Scanner.Python.{should_skip_dir, is_python_file, load_python_dir}
use mcpcheck.Scanner.TypeScript.{
  should_skip_ts_dir, is_type_script_source_file, load_type_script_dir,
}
use mcpcheck.Scanner.Dispatch.{Libraries, stat, dir_has_extension, load_tools}

module _ (l : Libraries) where
  -- `Load` of a directory whose own base name is one that both intakes skip returns no tools and no error,
  -- whatever the directory holds.
  pub load_tools-skipped :
      (path base : Text) (readable : Bool) (entries : Nodes)
      → should_skip_dir base ≡ true
      → should_skip_ts_dir base ≡ true
      → load_tools l path base (dir readable entries) ≡ ok []
  unfolding load_tools stat load_python_dir load_type_script_dir walk
  load_tools-skipped path base readable entries p t =
      elim (Bool-cases (dir_has_extension (codes ".py") (dir readable entries))) [
        | inl e ↦ rw (e, p)
        | inr e ↦ rw (e, t)
      ]

  -- So does `Load` of a link to a directory, whatever that holds, if the path has no ending of a source file:
  -- `os.Stat` follows the link and the walk does not.
  pub load_tools-linked :
      (path base : Text) (entries : Nodes) (readable : Bool)
      → is_python_file path ≡ false
      → is_type_script_source_file path ≡ false
      → load_tools l path base (link (dir readable entries)) ≡ ok []
  unfolding load_tools stat load_python_dir load_type_script_dir walk
  load_tools-linked path base entries readable p t =
      elim (Bool-cases (dir_has_extension (codes ".py") (dir readable entries))) [
        | inl e ↦ rw (e, p)
        | inr e ↦ rw (e, t)
      ]
