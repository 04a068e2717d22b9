-- ===== src/Prelude/Format.antt =====
-- The verbs `%d` and `%q` of `fmt`, and `strings.Join`.
use Prim.Native.Nat.{ℕ, zero, suc, ◌+◌, ◌-◌, ◌/◌, ◌%◌}
use mathlib.Core.Bool.{Bool, ◌&&◌, ◌||◌}
use mathlib.Core.List.{List, [], ◌∷◌, ◌++◌}
use mcpcheck.Prelude.Tests.{ltb, leb, ◌==◌, if◌then◌else◌}
use mcpcheck.Prelude.Texts.{Text, codes, Tables}

-- The digits of `n` to a base, in front of `acc`; a number has at most as many digits as itself and one.
digits_from : ℕ → ℕ → ℕ → Text → Text
digits_from zero base n acc = acc
digits_from (suc fuel) base n acc =
    let d = n % base in
    let acc' = (if ltb d 10 then b'0' + d else b'a' + (d - 10)) ∷ acc in
    let rest = digits_from fuel base (n / base) acc' in if n / base == 0 then acc' else rest

-- `%d`
unfoldable pub decimal : ℕ → Text
unfolding digits_from
decimal n = digits_from (suc n) 10 n []

-- `width` digits to base 16, with leading zeros.
hex : ℕ → ℕ → Text → Text
hex zero n acc = acc
hex (suc width) n acc =
    let d = n % 16 in hex width (n / 16) ((if ltb d 10 then b'0' + d else b'a' + (d - 10)) ∷ acc)

-- `unicode.IsPrint`
unfoldable pub is_print : Tables → ℕ → Bool
is_print u c = if ltb c 0x80 then leb 0x20 c && leb c 0x7e else u.printable c

-- How `strconv.Quote` writes one code point.
unfoldable pub quote_rune : Tables → ℕ → Text
unfolding hex is_print
quote_rune u c =
    if c == b'"' || c == 92
    then 92 ∷ c ∷ []
    else if is_print u c
    then c ∷ []
    else if c == 7
    then codes "\\a"
    else if c == 8
    then codes "\\b"
    else if c == 12
    then codes "\\f"
    else if c == 10
    then codes "\\n"
    else if c == 13
    then codes "\\r"
    else if c == 9
    then codes "\\t"
    else if c == 11
    then codes "\\v"
    else if ltb c 0x20 || c == 0x7f
    then codes "\\x" ++ hex 2 c []
    else if ltb c 0x10000
    then codes "\\u" ++ hex 4 c []
    else codes "\\U" ++ hex 8 c []

unfoldable pub quote_runes : Tables → Text → Text
unfolding quote_rune
quote_runes u [] = []
quote_runes u (c ∷ s) = quote_rune u c ++ quote_runes u s

-- `%q`
unfoldable pub quoted : Tables → Text → Text
unfolding quote_runes
quoted u s = codes "\"" ++ (quote_runes u s ++ codes "\"")

-- `strings.Join`
unfoldable pub join : Text → List Text → Text
join sep [] = []
join sep (s ∷ []) = s
join sep (s ∷ t ∷ ts) = s ++ (sep ++ join sep (t ∷ ts))
