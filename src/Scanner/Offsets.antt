-- ===== src/Scanner/Offsets.antt =====
-- The source lines of the TypeScript intake.
use mcpcheck.Prelude.{
  ℕ, zero, suc, ◌+◌, ◌-◌, ◌<◌, ◌≤◌, ◌≡◌, refl, ap, subst, ◌∙◌, List, [], ◌∷◌, ◌++◌, Text, rune_len,
  byte_len, arith,
}
use mcpcheck.Mcpmodel.{Tool}
use mcpcheck.Scanner.TypeScript.{
  tool_call, take_bytes, count_newlines, byte_offset_to_line, index_at, tool_of_match,
  tools_of_matches, scan_type_script,
}

rune_len_pos : (c : ℕ) → 0 < rune_len c
unfolding rune_len
rune_len_pos c = ground arith

take_bytes-cons :
    (m c : ℕ) (s : Text) → rune_len c ≤ m → take_bytes m (c ∷ s) ≡ c ∷ take_bytes (m - rune_len c) s
unfolding take_bytes
take_bytes-cons zero c s h = absurd (omega (arith, rune_len_pos c))
take_bytes-cons (suc m) c s h = refl

take_bytes_prefix : (before rest : Text) → take_bytes (byte_len before) (before ++ rest) ≡ before
unfolding take_bytes byte_len rune_len
take_bytes_prefix [] [] = refl
take_bytes_prefix [] (c ∷ rest) = refl
take_bytes_prefix (c ∷ before) rest =
    take_bytes-cons (rune_len c + byte_len before) c (before ++ rest) (omega arith)
    ∙ ap (λ n. c ∷ take_bytes n (before ++ rest)) (omega arith)
    ∙ ap (◌∷◌ c) (take_bytes_prefix before rest)

count_newlines_mono :
    (m n : ℕ) (s : Text) → m ≤ n → count_newlines (take_bytes m s) ≤ count_newlines (take_bytes n s)
unfolding count_newlines take_bytes
count_newlines_mono m n [] h = ground arith
count_newlines_mono zero n (c ∷ s) h = ground arith
count_newlines_mono (suc m) zero (c ∷ s) h = absurd (omega arith)
count_newlines_mono (suc m) (suc n) (c ∷ s) h =
    omega (arith, count_newlines_mono (suc m - rune_len c) (suc n - rune_len c) s (omega arith))

take_bytes-zero : (s : Text) → take_bytes 0 s ≡ []
unfolding take_bytes
take_bytes-zero [] = refl
take_bytes-zero (c ∷ s) = refl

first_line : (src : Text) → byte_offset_to_line src 0 ≡ 1
unfolding byte_offset_to_line count_newlines
first_line src = ap (λ s. count_newlines s + 1) (take_bytes-zero src)

count_newlines_within : (m : ℕ) (s : Text) → count_newlines (take_bytes m s) ≤ count_newlines s
unfolding count_newlines take_bytes
count_newlines_within m [] = ground arith
count_newlines_within zero (c ∷ s) = omega arith
count_newlines_within (suc m) (c ∷ s) = omega (arith, count_newlines_within (suc m - rune_len c) s)

-- The line of the byte behind a prefix is 1 and the number of the newlines of the prefix, whatever the
-- lengths of its code points in UTF-8 are.
pub byte_offset_to_line_lem :
    (before rest : Text)
    → byte_offset_to_line (before ++ rest) (byte_len before) ≡ count_newlines before + 1
unfolding byte_offset_to_line
byte_offset_to_line_lem before rest = rw (take_bytes_prefix before rest)

-- Matches of which none starts before an earlier one.
abbrev pub StartInOrder : ℕ → List (List ℕ) → Type 0
StartInOrder n [] = Unit
StartInOrder n (idx ∷ matches) = (n ≤ index_at 0 idx) × StartInOrder (index_at 0 idx) matches

abbrev pub LinesInOrder : ℕ → ℕ → List Tool → Type 0
LinesInOrder n last [] = Unit
LinesInOrder n last (t ∷ ts) =
    (n ≤ t.source_line) × (t.source_line ≤ last) × LinesInOrder t.source_line last ts

tools_of_matches-LinesInOrder :
    (path src : Text) (n : ℕ) (matches : List (List ℕ))
    → StartInOrder n matches
    → LinesInOrder
        (byte_offset_to_line src n)
        (count_newlines src + 1)
        (tools_of_matches path src matches)
unfolding tools_of_matches tool_of_match byte_offset_to_line
tools_of_matches-LinesInOrder path src n [] h = tt
tools_of_matches-LinesInOrder path src n (idx ∷ matches) h = (
  omega (arith, count_newlines_mono n (index_at 0 idx) src h.0),
  omega (arith, count_newlines_within (index_at 0 idx) src),
  tools_of_matches-LinesInOrder path src (index_at 0 idx) matches h.1,
)

-- Where the matches come in the order of their starts, as the library documents, the source lines of the
-- tools that `scanTypeScript` returns never fall, and lie between 1 and the number of the text's lines.
pub scan_type_script_lines :
    (find_index : Text → Text → List (List ℕ)) (path src : Text)
    → StartInOrder 0 (find_index tool_call src)
    → LinesInOrder 1 (count_newlines src + 1) (scan_type_script find_index path src)
unfolding scan_type_script
scan_type_script_lines find_index path src h =
    subst (λ n. LinesInOrder n (count_newlines src + 1) (scan_type_script find_index path src))
      (first_line src) (tools_of_matches-LinesInOrder path src 0 (find_index tool_call src) h)
