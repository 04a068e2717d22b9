-- ===== src/Scanner/Python.antt =====
-- internal/scanner/pyintake.go. The library's regular expressions are a parameter: `find_submatch` is
-- `FindStringSubmatch` and `find_all` is `FindAllStringSubmatch` of a compiled pattern.
use mcpcheck.Prelude.{
  ℕ, zero, suc, ◌+◌, Bool, ◌||◌, List, [], ◌∷◌, Option, none, some, Text, ◌=ₜ◌, codes, has_prefix,
  has_suffix, trim_space, byte_len, member, any, leb, if◌then◌else◌, ◌==◌, Result, ok, err,
}
use mathlib.Core.List.{reverse}
use mcpcheck.Mcpmodel.{Tool}
use mcpcheck.Scanner.Files.{Node, Error, open_failed, scan_failed, text_of, opens, walk}

pub record Regexps : Type 0 where
  pub find_submatch : Text → Text → Option (List Text)
  pub find_all : Text → Text → List (List Text)

-- `pyToolDecoratorRe`, `pyDefRe`, `pyKwargStringRe`, `pyDocstringStartRe`
abbrev pub tool_decorator : Text
tool_decorator = codes "^\\s*@\\s*([A-Za-z_][A-Za-z0-9_]*)\\.tool\\b(\\s*\\(([^)]*)\\))?\\s*$"

abbrev pub def_pattern : Text
def_pattern = codes "^\\s*(?:async\\s+)?def\\s+([A-Za-z_][A-Za-z0-9_]*)\\s*\\("

abbrev pub kwarg_string : Text
kwarg_string = codes "(\\w+)\\s*=\\s*(\"([^\"]*)\"|'([^']*)')"

abbrev pub docstring_start : Text
docstring_start = codes "^\\s*(?:[ru]?(?:b)?|b?(?:r|u)?)?(\"\"\"|''')(.*)$"

-- A group of a match; one that took no part is the empty text.
abbrev pub group : ℕ → List Text → Text
group n [] = []
group zero (g ∷ gs) = g
group (suc n) (g ∷ gs) = group n gs

-- `shouldSkipDir`
unfoldable pub should_skip_dir : Text → Bool
should_skip_dir name = member name (
    codes "__pycache__"
    ∷ codes ".venv"
    ∷ codes "venv"
    ∷ codes "env"
    ∷ codes "node_modules"
    ∷ codes ".git"
    ∷ codes ".tox"
    ∷ codes "build"
    ∷ codes "dist"
    ∷ [])

-- The lines of `bufio.ScanLines`, without a carriage return at their ends; `line` is what of the current
-- one is read, reversed.
abbrev pub drop_cr : Text → Text
drop_cr [] = []
drop_cr (c ∷ line) = if c == 13 then line else c ∷ line

abbrev pub last_line : Text → List Text
last_line [] = []
last_line (c ∷ line) = (c ∷ line) ∷ []

-- The lines, each reversed and with its carriage return.
pub lines_from : Text → Text → List Text
lines_from line [] = last_line line
lines_from line (c ∷ s) = if c == 10 then line ∷ lines_from [] s else lines_from (c ∷ line) s

-- The size of the buffer: a line that fills it fails the scan.
abbrev pub max_line : ℕ
max_line = 1048576

pub strip_lines : List Text → List Text
strip_lines [] = []
strip_lines (line ∷ lines) = reverse (drop_cr line) ∷ strip_lines lines

-- The first loop of `scanPythonReader`.
unfoldable pub scan_lines : Text → Option (List Text)
unfolding lines_from strip_lines
scan_lines content =
    if any (λ line. leb max_line (byte_len line)) (lines_from [] content)
    then none
    else some (strip_lines (lines_from [] content))

-- What `nextDefLine` passes over.
unfoldable pub is_passed_over : Text → Bool
is_passed_over line =
    let trimmed = trim_space line in
    trimmed =ₜ [] || has_prefix trimmed (codes "#") || has_prefix trimmed (codes "@")

-- `nextDefLine`, by the lines from `start` on: the line, and the lines behind it.
unfoldable pub next_def_line : List Text → Option (Text × List Text)
unfolding is_passed_over
next_def_line [] = none
next_def_line (line ∷ lines) =
    if is_passed_over line then next_def_line lines else some (line, lines)

-- `strings.Index(s, sep)` and what stands before it.
unfoldable pub before_sep : Text → Text → Option Text
before_sep sep [] = if has_prefix [] sep then some [] else none
before_sep sep (c ∷ s) =
    if has_prefix (c ∷ s) sep
    then some []
    else elim (before_sep sep s) [ none ↦ none | some t ↦ some (c ∷ t) ]

-- `strings.TrimSuffix`
abbrev drop_text : Text → Text → Text
drop_text [] s = s
drop_text (c ∷ t) [] = []
drop_text (c ∷ t) (d ∷ s) = drop_text t s

unfoldable pub trim_suffix : Text → Text → Text
trim_suffix s t = if has_suffix s t then reverse (drop_text t (reverse s)) else s

-- The last loop of `extractDocstringFirstLine`.
unfoldable pub docstring_body : Text → List Text → Text
docstring_body quote [] = []
docstring_body quote (line ∷ lines) =
    let trimmed = trim_space line in
    if trimmed =ₜ []
    then docstring_body quote lines
    else if has_suffix trimmed quote
    then trim_space (trim_suffix trimmed quote)
    else trimmed

abbrev pub docstring_open : Text → Text → List Text → Text
docstring_open quote rest lines = elim (before_sep quote rest) [
  | some s ↦ trim_space s
  | none ↦ if trim_space rest =ₜ [] then docstring_body quote lines else trim_space rest
]

-- The loop over the keyword arguments, from a name and a description on.
abbrev pub kwarg_value : List Text → Text
kwarg_value kv = if group 3 kv =ₜ [] then group 4 kv else group 3 kv

unfoldable pub read_kwargs : List (List Text) → Text → Text → Text × Text
read_kwargs [] name description = (name, description)
read_kwargs (kv ∷ kvs) name description =
    read_kwargs kvs (if group 1 kv =ₜ codes "name" then kwarg_value kv else name)
      (if group 1 kv =ₜ codes "description" then kwarg_value kv else description)

abbrev pub is_python_file : Text → Bool
is_python_file path = has_suffix path (codes ".py")

abbrev pub add_tool : Option Tool → List Tool → List Tool
add_tool none tools = tools
add_tool (some t) tools = t ∷ tools

module _ (re : Regexps) where
  -- `extractDocstringFirstLine`, by the lines from `start` on.
  unfoldable pub extract_docstring_first_line : List Text → Text
  extract_docstring_first_line [] = []
  extract_docstring_first_line (line ∷ lines) = elim (re.find_submatch docstring_start line) [
    | none ↦ []
    | some m ↦ docstring_open (group 1 m) (group 2 m) lines
  ]

  abbrev pub describe : Text → List Text → Text
  describe description body =
      if description =ₜ [] then extract_docstring_first_line body else description

  -- The body of the second loop behind the match of a `def`.
  abbrev pub python_tool : Text → ℕ → Text × Text → List Text → Tool
  python_tool path i (name, description) body = record {
    name = name;
    description = describe description body;
    input_schema = none;
    source_file = path;
    source_line = i + 1;
  }

  -- The three exits of the body of the second loop: no decorator, no line behind it, no `def` on that.
  abbrev pub defined_tool : Text → ℕ → Text → List Text → Option (List Text) → Option Tool
  defined_tool path i arguments body none = none
  defined_tool path i arguments body (some m) =
      some
        (python_tool path i (read_kwargs (re.find_all kwarg_string arguments) (group 1 m) []) body)

  abbrev pub headed_tool : Text → ℕ → Text → Option (Text × List Text) → Option Tool
  headed_tool path i arguments none = none
  headed_tool path i arguments (some (line, body)) =
      defined_tool path i arguments body (re.find_submatch def_pattern line)

  abbrev pub decorated_tool : Text → ℕ → List Text → Option (List Text) → Option Tool
  decorated_tool path i later none = none
  decorated_tool path i later (some m) = headed_tool path i (group 3 m) (next_def_line later)

  -- The body of the second loop of `scanPythonReader` at a line with the index `i`.
  unfoldable pub tool_at : Text → ℕ → Text → List Text → Option Tool
  tool_at path i line later = decorated_tool path i later (re.find_submatch tool_decorator line)

  unfoldable pub scan_from : Text → ℕ → List Text → List Tool
  scan_from path i [] = []
  scan_from path i (line ∷ later) =
      add_tool (tool_at path i line later) (scan_from path (i + 1) later)

  abbrev pub scanned : Text → Option (List Text) → Option (List Tool)
  scanned path none = none
  scanned path (some lines) = some (scan_from path 0 lines)

  -- `scanPythonReader`
  unfoldable pub scan_python_reader : Text → Text → Option (List Tool)
  scan_python_reader path content = scanned path (scan_lines content)

  -- `LoadPythonFile`
  unfoldable pub load_python_file : Text → Node → Result Error (List Tool)
  load_python_file path n = elim (text_of n) [
    | none ↦ err (if opens n then scan_failed path else open_failed path)
    | some content ↦ elim (scan_python_reader path content) [
      | none ↦ err (scan_failed path)
      | some tools ↦ ok tools
    ]
  ]

  -- `LoadPythonDir`, by the base name of `dir` and what stands there.
  unfoldable pub load_python_dir : (Text → Text) → Text → Text → Node → Result Error (List Tool)
  load_python_dir clean path base n =
      walk clean should_skip_dir is_python_file load_python_file path base n
