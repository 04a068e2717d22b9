-- ===== src/Scanner/Dispatch.antt =====
-- internal/scanner/dispatch.go
use mcpcheck.Prelude.{
  ℕ, Bool, true, false, not, ◌&&◌, ◌||◌, List, Option, none, some, Text, codes, has_suffix,
  if◌then◌else◌, Result, ok, err,
}
use mcpcheck.Mcpmodel.{Value, Tool, ToolSet}
use mcpcheck.Scanner.Files.{
  Node, file, dir, link, dead_link, Nodes, nil, node, Error, stat_failed, unsupported, is_dir,
}
use mcpcheck.Scanner.Python.{Regexps, load_python_file, load_python_dir}
use mcpcheck.Scanner.TypeScript.{
  load_type_script_file, load_type_script_dir, is_type_script_source_file,
}
use mcpcheck.Scanner.Json.{load_tools_json}

-- What `os.Stat` finds behind links, if anything.
unfoldable pub stat : Node → Option Node
stat (link target) = stat target
stat dead_link = none
stat (file content) = some (file content)
stat (dir readable entries) = some (dir readable entries)

-- The loop of `dirHasExtension`.
unfoldable pub has_extension : Text → Nodes → Bool
has_extension ext nil = false
has_extension ext (node name n rest) =
    (not (is_dir n) && has_suffix name ext) || has_extension ext rest

-- `dirHasExtension`, with false for the error.
abbrev pub dir_has_extension : Text → Node → Bool
dir_has_extension ext (dir true entries) = has_extension ext entries
dir_has_extension ext (dir false entries) = false
dir_has_extension ext (file _) = false
dir_has_extension ext (link _) = false
dir_has_extension ext dead_link = false

-- What the intakes take from the libraries.
pub record Libraries : Type 0 where
  pub regexps : Regexps
  pub clean : Text → Text  -- filepath.Clean
  pub find_index : Text → Text → List (List ℕ)
  pub matches : Text → Text → Bool
  pub parse : Text → Option Value

module _ (l : Libraries) where
  -- The branch of `Load` for a directory. `n` is what stands at the path, perhaps a link.
  abbrev pub load_dir : Text → Text → Node → Node → Result Error (List Tool)
  load_dir path base n found =
      if dir_has_extension (codes ".py") found
      then load_python_dir l.regexps l.clean path base n
      else load_type_script_dir l.find_index l.clean path base n

  -- The `switch` of `Load` on a file's path.
  unfoldable pub load_file : Text → Node → Result Error (List Tool)
  load_file path n =
      if has_suffix path (codes ".json")
      then load_tools_json l.matches l.parse path n
      else if has_suffix path (codes ".py")
      then load_python_file l.regexps path n
      else if is_type_script_source_file path
      then load_type_script_file l.find_index path n
      else err (unsupported path)

  abbrev pub load_found : Text → Text → Node → Option Node → Result Error (List Tool)
  load_found path base n none = err (stat_failed path)
  load_found path base n (some found) =
      if is_dir found then load_dir path base n found else load_file path n

  -- `Load`, by the base name of the path and what stands there; its set has the path as its source.
  unfoldable pub load_tools : Text → Text → Node → Result Error (List Tool)
  load_tools path base n = load_found path base n (stat n)

  abbrev pub set_of : Text → Result Error (List Tool) → Option ToolSet
  set_of path (ok tools) = some (record { tools = tools; source = path })
  set_of path (err e) = none

  -- `Load` of a path that names `n`, `none` being nothing.
  unfoldable pub load : Text → Text → Option Node → Option ToolSet
  load path base none = none
  load path base (some n) = set_of path (load_tools path base n)
