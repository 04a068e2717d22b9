-- ===== src/Prelude/Texts.antt =====
-- Texts as lists of code points, and the parts of `strings`, `unicode` and `utf8` that the program
-- calls. A Go string is taken to be valid UTF-8; its order by bytes is the order by code points.
use Prim.Native.Char.{code}
use Prim.Native.Nat.{ℕ, ◌+◌}
use Prim.Native.String.{String}
use mathlib.Core.Path.{◌≡◌, refl, ap₂}
use mathlib.Core.Logic.{◌↔◌}
use mathlib.Core.Bool.{Bool, true, false, ◌&&◌, ◌||◌, not}
use mathlib.Core.List.{List, [], ◌∷◌, map, reverse}
use native.Mathlib.Omega.{arith}
use mcpcheck.Prelude.Tests.{ltb, leb, ◌==◌, if◌then◌else◌}
use mcpcheck.Prelude.Lists.{keep}

abbrev pub Text : Type 0
Text = List ℕ

-- The code points of a literal.
abbrev pub codes : String → Text
codes String.[] = []
codes (String.◌∷◌ c s) = code c ∷ codes s

-- `s == t`
infix 50 ◌=ₜ◌
unfoldable pub ◌=ₜ◌ : Text → Text → Bool
[] =ₜ [] = true
[] =ₜ (d ∷ t) = false
(c ∷ s) =ₜ [] = false
(c ∷ s) =ₜ (d ∷ t) = c == d && s =ₜ t

pub text_eq_iff : (s t : Text) → ((s =ₜ t) ≡ true) ↔ (s ≡ t)
unfolding ◌=ₜ◌
text_eq_iff [] [] = (λ _. refl, λ _. refl)
text_eq_iff [] (d ∷ t) = (λ e. cc, λ e. cc)
text_eq_iff (c ∷ s) [] = (λ e. cc, λ e. cc)
text_eq_iff (c ∷ s) (d ∷ t) = (
  λ e. ap₂ ◌∷◌ (ground arith) ((text_eq_iff s t).0 (ground arith)),
  λ e. ground (arith, (text_eq_iff s t).1 (cc)),
)

pub text_eq_refl : (s : Text) → (s =ₜ s) ≡ true
text_eq_refl s = (text_eq_iff s s).1 refl

-- `s < t`
unfoldable pub text_lt : Text → Text → Bool
text_lt [] [] = false
text_lt [] (d ∷ t) = true
text_lt (c ∷ s) [] = false
text_lt (c ∷ s) (d ∷ t) = ltb c d || c == d && text_lt s t

-- `strings.HasPrefix`
unfoldable pub has_prefix : Text → Text → Bool
has_prefix s [] = true
has_prefix [] (d ∷ t) = false
has_prefix (c ∷ s) (d ∷ t) = c == d && has_prefix s t

-- `strings.HasSuffix`
unfoldable pub has_suffix : Text → Text → Bool
unfolding has_prefix
has_suffix s t = has_prefix (reverse s) (reverse t)

-- `strings.ReplaceAll(s, c, "")` for a text `c` of one code point.
unfoldable pub remove_all : ℕ → Text → Text
remove_all c s = keep (λ d. not (d == c)) s

-- The bytes that UTF-8 takes for a code point, and `len(s)`.
unfoldable pub rune_len : ℕ → ℕ
rune_len c = if ltb c 0x80 then 1 else if ltb c 0x800 then 2 else if ltb c 0x10000 then 3 else 4

unfoldable pub byte_len : Text → ℕ
unfolding rune_len
byte_len [] = 0
byte_len (c ∷ s) = rune_len c + byte_len s

-- `unicode.IsSpace`, which is the property White_Space.
unfoldable pub is_space : ℕ → Bool
is_space c =
    (leb 9 c && leb c 13)
    || c == 32
    || c == 0x85
    || c == 0xa0
    || c == 0x1680
    || (leb 0x2000 c && leb c 0x200a)
    || c == 0x2028
    || c == 0x2029
    || c == 0x202f
    || c == 0x205f
    || c == 0x3000

unfoldable pub trim_left : Text → Text
unfolding is_space
trim_left [] = []
trim_left (c ∷ s) = if is_space c then trim_left s else c ∷ s

-- `strings.TrimSpace`
unfoldable pub trim_space : Text → Text
unfolding trim_left
trim_space s = reverse (trim_left (reverse (trim_left s)))

-- `strings.Fields`: the words between runs of space. `word` is what of the current one is read, reversed.
abbrev end_word : Text → List Text → List Text
end_word [] words = words
end_word (c ∷ s) words = reverse (c ∷ s) ∷ words

unfoldable pub words_from : Text → Text → List Text
words_from word [] = end_word word []
words_from word (c ∷ s) =
    if is_space c then end_word word (words_from [] s) else words_from (c ∷ word) s

unfoldable pub words_of : Text → List Text
words_of s = words_from [] s

-- The rows of the Unicode tables above ASCII: the library's data, which no file of the program holds.
pub record Tables : Type 0 where
  pub lower_letter : ℕ → Bool
  pub decimal_digit : ℕ → Bool
  pub lowered : ℕ → ℕ
  pub printable : ℕ → Bool

module _ (u : Tables) where
  -- `unicode.IsLower`
  unfoldable pub is_lower : ℕ → Bool
  is_lower c = if ltb c 0x80 then leb b'a' c && leb c b'z' else u.lower_letter c

  -- `unicode.IsDigit`
  unfoldable pub is_digit : ℕ → Bool
  is_digit c = if ltb c 0x80 then leb b'0' c && leb c b'9' else u.decimal_digit c

  -- `unicode.ToLower`
  unfoldable pub rune_to_lower : ℕ → ℕ
  rune_to_lower c =
      if ltb c 0x80 then (if leb b'A' c && leb c b'Z' then c + 32 else c) else u.lowered c

  -- `strings.ToLower`
  unfoldable pub to_lower : Text → Text
  unfolding rune_to_lower
  to_lower s = map rune_to_lower s

-- No row above ASCII.
abbrev pub ascii_tables : Tables
ascii_tables = record {
  lower_letter = λ _. false;
  decimal_digit = λ _. false;
  lowered = λ c. c;
  printable = λ _. false;
}
