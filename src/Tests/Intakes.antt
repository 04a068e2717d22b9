-- ===== src/Tests/Intakes.antt =====
-- The intakes on small files and directories.
use mcpcheck.Prelude.{
  ℕ, ◌+◌, ◌≡◌, ◌↔◌, refl, true, List, [], ◌∷◌, Option, none, some, Text, ◌=ₜ◌, codes, has_prefix,
  has_suffix, trim_space, byte_len, member, In, map, if◌then◌else◌, ok, arith,
}
use mcpcheck.Mcpmodel.{Value, array, object, field, end, Tool}
use mcpcheck.Scanner.Files.{file, dir, Nodes, nil, node, walk, walk_entries, text_of, join_path}
use mcpcheck.Scanner.Python.{
  Regexps, tool_decorator, def_pattern, scan_lines, scan_python_reader, should_skip_dir,
  is_python_file, load_python_file, scan_from, tool_at, next_def_line, read_kwargs,
  extract_docstring_first_line,
}
use mcpcheck.Scanner.TypeScript.{scan_type_script, count_newlines, should_skip_ts_dir}
use mcpcheck.Scanner.Json.{field_of, parse_tools_json}
use mcpcheck.Scanner.Dispatch.{Libraries, load_tools}
use mcpcheck.Scanner.Lines.{IsAscending, DeclaresAt, scan_python_reader_lem}
use mcpcheck.Scanner.Offsets.{LinesInOrder, scan_type_script_lines}
use mcpcheck.Scanner.Walks.{BelowLoaded, walk_iff}
use mcpcheck.Scanner.Documents.{tool_items, unplaced, AreFieldNames, parse_tools_json-items}
use mcpcheck.Scanner.Roots.{load_tools-skipped}

-- Expressions that know `@mcp.tool()` and `def fetch(`.
abbrev small_regexps : Regexps
small_regexps = record {
  find_submatch = λ pattern line.
      if pattern =ₜ tool_decorator
      then if line =ₜ codes "@mcp.tool()"
        then some (line ∷ codes "mcp" ∷ codes "()" ∷ [] ∷ [])
        else none
      else if pattern =ₜ def_pattern
      then if has_prefix line (codes "def fetch(") then some (line ∷ codes "fetch" ∷ []) else none
      else none;
  find_all = λ pattern arguments. [];
}

abbrev small_file : Text
small_file = codes "import mcp\n\n@mcp.tool()\n@cached\ndef fetch(id):\n  return 1\n"

abbrev small_lines : List Text
small_lines =
    codes "import mcp"
    ∷ []
    ∷ codes "@mcp.tool()"
    ∷ codes "@cached"
    ∷ codes "def fetch(id):"
    ∷ codes "  return 1"
    ∷ []

small_scan : scan_lines small_file ≡ some small_lines
unfolding scan_lines byte_len
small_scan = refl

scan_python_reader_example :
    (tools : List Tool) × (scan_python_reader small_regexps (codes "a.py") small_file ≡ some tools)
    × IsAscending 0 tools
    × ((t : Tool)
        → In t tools
        → (t.source_file ≡ codes "a.py")
          × ((n : ℕ) × (t.source_line ≡ n + 1) × DeclaresAt small_regexps n small_lines))
    × ((n : ℕ)
        → DeclaresAt small_regexps n small_lines
        → (t : Tool) × In t tools × (t.source_line ≡ n + 1))
scan_python_reader_example =
    scan_python_reader_lem small_regexps (codes "a.py") small_file small_lines small_scan

abbrev placed_tool : Text → Tool
placed_tool path = record {
  name = codes "fetch";
  description = [];
  input_schema = none;
  source_file = path;
  source_line = 3;
}

abbrev one_tool : List Tool
one_tool = placed_tool (codes "a.py") ∷ []

small_tools : scan_python_reader small_regexps (codes "a.py") small_file ≡ some one_tool
unfolding scan_python_reader scan_lines byte_len scan_from tool_at next_def_line trim_space
    has_prefix ◌=ₜ◌ read_kwargs extract_docstring_first_line
small_tools = refl

-- A match on the third line and one behind it.
abbrev two_matches : Text → Text → List (List ℕ)
two_matches pattern src =
    (3 ∷ 20 ∷ 3 ∷ 4 ∷ 10 ∷ 11 ∷ 14 ∷ 15 ∷ []) ∷ (30 ∷ 40 ∷ 30 ∷ 31 ∷ 33 ∷ 34 ∷ 36 ∷ 37 ∷ []) ∷ []

abbrev call_source : Text
call_source = codes "\n\n\ns.tool('a','b')\n\nt.tool('c','d')"

scan_type_script_example :
    LinesInOrder 1
      (count_newlines call_source + 1)
      (scan_type_script two_matches (codes "a.ts") call_source)
scan_type_script_example =
    scan_type_script_lines two_matches (codes "a.ts") call_source (omega arith, (omega arith, tt))

-- A Python file beside an environment.
abbrev small_dir : Nodes
small_dir =
    node (codes "a.py") (file (some small_file))
      (node (codes "venv") (dir true (node (codes "b.py") (file (some small_file)) nil)) nil)

small_walk :
    walk
      (λ x. x)
      should_skip_dir
      is_python_file
      (load_python_file small_regexps)
      (codes "p")
      (codes "p")
      (dir true small_dir)
    ≡ ok (placed_tool (codes "p/a.py") ∷ [])
unfolding walk walk_entries should_skip_dir member ◌=ₜ◌ has_suffix load_python_file
    scan_python_reader scan_lines byte_len scan_from tool_at next_def_line trim_space has_prefix
    read_kwargs extract_docstring_first_line text_of join_path
small_walk = refl

walk_example :
    In (placed_tool (codes "p/a.py")) (placed_tool (codes "p/a.py") ∷ [])
    ↔ BelowLoaded
        (λ x. x)
        should_skip_dir
        is_python_file
        (load_python_file small_regexps)
        (codes "p")
        small_dir
        (placed_tool (codes "p/a.py"))
unfolding should_skip_dir member ◌=ₜ◌
walk_example =
    walk_iff (λ x. x) should_skip_dir is_python_file (load_python_file small_regexps) (codes "p")
      (codes "p") small_dir (placed_tool (codes "p/a.py") ∷ []) refl small_walk
      (placed_tool (codes "p/a.py"))

exact_names : AreFieldNames ◌=ₜ◌
unfolding ◌=ₜ◌
exact_names = record {
  tools = refl;
  name = refl;
  description = refl;
  input_schema = refl;
  description_name = refl;
  schema_name = refl;
  schema_description = refl;
}

-- A reader that knows one document.
abbrev small_parse : Text → Option Value
small_parse raw =
    if raw =ₜ codes "[]"
    then some (array (tool_items one_tool))
    else some (object (field (codes "tools") (array (tool_items one_tool)) end))

parse_tools_json_example :
    (small_parse (codes "{}") ≡ some (array (tool_items one_tool))
      → parse_tools_json ◌=ₜ◌ small_parse (codes "{}") ≡ some (map unplaced one_tool))
    × (small_parse (codes "{}")
          ≡ some (object (field (codes "tools") (array (tool_items one_tool)) end))
        → parse_tools_json ◌=ₜ◌ small_parse (codes "{}") ≡ some (map unplaced one_tool))
unfolding field_of
parse_tools_json_example =
    parse_tools_json-items ◌=ₜ◌ exact_names small_parse (codes "{}") one_tool end refl

abbrev small_libraries : Libraries
small_libraries = record {
  regexps = small_regexps;
  clean = λ x. x;
  find_index = two_matches;
  matches = ◌=ₜ◌;
  parse = small_parse;
}

load_tools_skipped_example :
    load_tools small_libraries (codes "src/build") (codes "build") (dir true small_dir) ≡ ok []
unfolding should_skip_dir should_skip_ts_dir member ◌=ₜ◌
load_tools_skipped_example =
    load_tools-skipped small_libraries (codes "src/build") (codes "build") true small_dir refl refl
