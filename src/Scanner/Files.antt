-- ===== src/Scanner/Files.antt =====
-- What the intakes of internal/scanner see of the file system, and the walk that LoadPythonDir and
-- LoadTypeScriptDir make with `filepath.WalkDir`.
use mcpcheck.Prelude.{
  Bool, true, false, List, [], ◌++◌, Option, none, some, Text, ◌=ₜ◌, codes, if◌then◌else◌, Result,
  ok, err, bind_result,
}
use mcpcheck.Mcpmodel.{Tool}

-- A file with its text, or with none if it cannot be opened; a directory that can be listed
-- or not, with its entries by ascending names; a symbolic link, to something or to nothing.
mutual
  pub data Node : Type 0 where
    file : Option Text → Node
    dir : Bool → Nodes → Node
    link : Node → Node
    dead_link : Node

  pub data Nodes : Type 0 where
    nil : Nodes
    node : Text → Node → Nodes → Nodes

-- The errors, each with the path that its message names.
pub data Error : Type 0 where
  stat_failed : Text → Error
  unsupported : Text → Error
  open_failed : Text → Error
  scan_failed : Text → Error
  read_failed : Text → Error
  parse_failed : Text → Error
  walk_failed : Text → Error

-- `os.Open` or `os.ReadFile`, which follow links.
unfoldable pub text_of : Node → Option Text
text_of (file content) = content
text_of (dir readable entries) = none
text_of (link target) = text_of target
text_of dead_link = none

-- `IsDir` of a directory entry, which does not follow links.
abbrev pub is_dir : Node → Bool
is_dir (dir readable entries) = true
is_dir (file content) = false
is_dir (link target) = false
is_dir dead_link = false

-- Whether `os.Open` succeeds, which it does on a directory that can be read.
unfoldable pub opens : Node → Bool
opens (file none) = false
opens (file (some content)) = true
opens (dir readable entries) = readable
opens (link target) = opens target
opens dead_link = false

-- `filepath.Join` of a path and a name that is not empty; `clean` is `filepath.Clean`.
unfoldable pub join_path : (Text → Text) → Text → Text → Text
join_path clean path name = clean (if path =ₜ [] then name else path ++ (codes "/" ++ name))

-- The walk with the callback of the two intakes. `skips` is the test on a directory's name, `wants` the
-- test on a file's path, `loads` reads a file.
module _ (clean : Text → Text) (skips : Text → Bool) (wants : Text → Bool)
    (loads : Text → Node → Result Error (List Tool)) where
  abbrev pub visit_file : Text → Node → Result Error (List Tool)
  visit_file path n = if wants path then loads path n else ok []

  abbrev pub visit_dir : Text → Text → Bool → Result Error (List Tool) → Result Error (List Tool)
  visit_dir path name readable found =
      if skips name then ok [] else if readable then found else err (walk_failed path)

  unfoldable mutual
    pub walk : Text → Text → Node → Result Error (List Tool)
    walk path name (dir readable entries) = visit_dir path name readable (walk_entries path entries)
    walk path name (file content) = visit_file path (file content)
    walk path name (link target) = visit_file path (link target)
    walk path name dead_link = visit_file path dead_link

    pub walk_entries : Text → Nodes → Result Error (List Tool)
    walk_entries path nil = ok []
    walk_entries path (node name n rest) =
        bind_result (walk (join_path clean path name) name n)
          λ ts. bind_result (walk_entries path rest) (λ us. ok (ts ++ us))
