-- ===== src/Scanner/TypeScript.antt =====
-- internal/scanner/tsintake.go. The library's regular expressions are a parameter: `find_index` is
-- `FindAllStringSubmatchIndex` of a compiled pattern, whose indices count bytes.
use mcpcheck.Prelude.{
  ℕ, zero, suc, ◌+◌, ◌-◌, Bool, List, [], ◌∷◌, none, some, Text, codes, member, rune_len,
  if◌then◌else◌, ◌==◌, Result, ok, err,
}
use mathlib.Core.List.{reverse}
use mcpcheck.Mcpmodel.{Tool}
use mcpcheck.Scanner.Files.{Node, Error, read_failed, text_of, walk}

-- `tsToolCallRe`
abbrev pub tool_call : Text
tool_call =
    codes
      "(?s)\\b([A-Za-z_$][A-Za-z0-9_$]*)\\.tool\\s*\\(\\s*[\"']([^\"']*)[\"']\\s*,\\s*[\"']([^\"']*)[\"']"

-- `shouldSkipTSDir`
unfoldable pub should_skip_ts_dir : Text → Bool
should_skip_ts_dir name = member name (
    codes "node_modules"
    ∷ codes "dist"
    ∷ codes "build"
    ∷ codes ".git"
    ∷ codes ".turbo"
    ∷ codes "coverage"
    ∷ codes ".next"
    ∷ [])

-- `filepath.Ext`, from the end of the path; `suffix` is what was read.
abbrev extension_from : Text → Text → Text
extension_from suffix [] = []
extension_from suffix (c ∷ s) =
    if c == b'/' then [] else if c == b'.' then c ∷ suffix else extension_from (c ∷ suffix) s

unfoldable pub extension : Text → Text
extension path = extension_from [] (reverse path)

-- `isTypeScriptSourceFile`
unfoldable pub is_type_script_source_file : Text → Bool
unfolding extension
is_type_script_source_file path =
    member (extension path)
      (codes ".ts" ∷ codes ".tsx" ∷ codes ".js" ∷ codes ".mjs" ∷ codes ".cjs" ∷ [])

-- The code points of a text that begin before a byte offset, and the others.
unfoldable pub take_bytes : ℕ → Text → Text
take_bytes n [] = []
take_bytes zero (c ∷ s) = []
take_bytes (suc n) (c ∷ s) = c ∷ take_bytes (suc n - rune_len c) s

unfoldable pub drop_bytes : ℕ → Text → Text
drop_bytes n [] = []
drop_bytes zero (c ∷ s) = c ∷ s
drop_bytes (suc n) (c ∷ s) = drop_bytes (suc n - rune_len c) s

-- `src[from:to]`
unfoldable pub slice : ℕ → ℕ → Text → Text
slice from to src = take_bytes (to - from) (drop_bytes from src)

-- `strings.Count(s, "\n")`
unfoldable pub count_newlines : Text → ℕ
count_newlines [] = 0
count_newlines (c ∷ s) = (if c == 10 then 1 else 0) + count_newlines s

-- `byteOffsetToLine`, for an offset that is not negative; one beyond the text takes the whole text.
unfoldable pub byte_offset_to_line : Text → ℕ → ℕ
byte_offset_to_line src offset = count_newlines (take_bytes offset src) + 1

-- `idx[n]`
abbrev pub index_at : ℕ → List ℕ → ℕ
index_at n [] = 0
index_at zero (i ∷ is) = i
index_at (suc n) (i ∷ is) = index_at n is

-- The body of the loop of `scanTypeScript`.
unfoldable pub tool_of_match : Text → Text → List ℕ → Tool
tool_of_match path src idx = record {
  name = slice (index_at 4 idx) (index_at 5 idx) src;
  description = slice (index_at 6 idx) (index_at 7 idx) src;
  input_schema = none;
  source_file = path;
  source_line = byte_offset_to_line src (index_at 0 idx);
}

unfoldable pub tools_of_matches : Text → Text → List (List ℕ) → List Tool
tools_of_matches path src [] = []
tools_of_matches path src (idx ∷ matches) =
    tool_of_match path src idx ∷ tools_of_matches path src matches

module _ (find_index : Text → Text → List (List ℕ)) where
  -- `scanTypeScript`
  unfoldable pub scan_type_script : Text → Text → List Tool
  scan_type_script path src = tools_of_matches path src (find_index tool_call src)

  -- `LoadTypeScriptFile`
  unfoldable pub load_type_script_file : Text → Node → Result Error (List Tool)
  load_type_script_file path n = elim (text_of n) [
    | none ↦ err (read_failed path)
    | some src ↦ ok (scan_type_script path src)
  ]

  -- `LoadTypeScriptDir`, by the base name of `dir` and what stands there.
  unfoldable pub load_type_script_dir :
      (Text → Text) → Text → Text → Node → Result Error (List Tool)
  load_type_script_dir clean path base n =
      walk clean should_skip_ts_dir is_type_script_source_file load_type_script_file path base n
