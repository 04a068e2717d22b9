-- ===== src/Rules/Pii.antt =====
-- internal/rules/pii.go, and `extractExamples` of internal/rules/examples.go: examples are to use placeholders.
-- The library's regular expressions are a parameter: `find_all` is `FindAllString` of a compiled pattern.
pub mod Placeholders
pub mod Laws
use mcpcheck.Prelude.{
  ℕ, suc, ◌≡◌, refl, sym, ap, ◌∙◌, ◌↔◌, ◌⊎◌, inl, inr, Bool, true, false, not, ◌&&◌, ◌||◌, List, [],
  ◌∷◌, ◌++◌, Option, some, none, Text, codes, ◌=ₜ◌, text_eq_iff, has_prefix, has_suffix, to_lower,
  Tables, member, any, any_iff, length, decimal, leb, keep, if◌then◌else◌, ◌==◌, In, here, there,
  In-cons, In-append, In-append_left, In-append_right, arith, Bool-cases, not-false,
}
use mcpcheck.Mcpmodel.{
  Value, null, bool, number, string, array, object, Items, nil, cons, Fields, end, field, lookup,
  as_array, to_list,
}
use mcpcheck.Registry.{sev_warning, fix_none, cat_examples, Context, report, Rule}

pub data Kind : Type 0 where
  email ssn phone : Kind

abbrev pub kind_name : Kind → Text
kind_name email = codes "email"
kind_name ssn = codes "ssn"
kind_name phone = codes "phone"

abbrev pub pattern_of : Kind → Text
pattern_of email = codes "\\b[A-Za-z0-9._%+\\-]+@[A-Za-z0-9.\\-]+\\.[A-Za-z]{2,}\\b"
pattern_of ssn = codes "\\b\\d{3}-\\d{2}-\\d{4}\\b"
pattern_of phone = codes "(?:\\(\\d{3}\\)\\s?\\d{3}-\\d{4}|\\b\\d{3}-\\d{3}-\\d{4}\\b)"

abbrev pub placeholder_email_domains : List Text
placeholder_email_domains =
    codes "@example.com"
    ∷ codes "@example.org"
    ∷ codes "@example.net"
    ∷ codes "@test.com"
    ∷ codes "@invalid"
    ∷ codes "@localhost"
    ∷ []

-- `emailIsPlaceholder`
unfoldable pub email_is_placeholder : Text → Bool
email_is_placeholder matched = any (has_suffix matched) placeholder_email_domains

abbrev pub placeholder_ssns : List Text
placeholder_ssns =
    codes "000-00-0000" ∷ codes "111-11-1111" ∷ codes "123-45-6789" ∷ codes "987-65-4321" ∷ []

-- `digitsOnly`
unfoldable pub digits_only : Text → Text
digits_only s = keep (λ r. leb b'0' r && leb r b'9') s

-- A slice of digits from the fourth on.
abbrev pub drop_three : Text → Text
drop_three (_ ∷ _ ∷ _ ∷ s) = s
drop_three _ = []

-- The `switch` of `phoneIsPlaceholder`.
unfoldable pub digits_are_placeholder : Text → Bool
digits_are_placeholder digits =
    if length digits == 7
    then has_prefix digits (codes "555")
    else if length digits == 10
    then has_prefix digits (codes "555") || has_prefix (drop_three digits) (codes "555")
    else false

-- `phoneIsPlaceholder`
unfoldable pub phone_is_placeholder : Text → Bool
phone_is_placeholder matched = digits_are_placeholder (digits_only matched)

abbrev pub is_placeholder : Kind → Text → Bool
is_placeholder email m = email_is_placeholder m
is_placeholder ssn m = member m placeholder_ssns
is_placeholder phone m = phone_is_placeholder m

-- `extractExamples`; nil is the empty list.
unfoldable pub extract_examples : Option Fields → List Value
extract_examples none = []
extract_examples (some schema) = elim (lookup (codes "examples") schema) [
  | none ↦ []
  | some raw ↦ elim (as_array raw) [ none ↦ [] | some arr ↦ to_list arr ]
]

module _ (u : Tables) (find_all : Text → Text → List Text) where
  -- The inner loop of `scanStringForPII` for one pattern.
  unfoldable pub has_real : Kind → Text → Bool
  has_real k s = any (λ m. not (is_placeholder k (to_lower u m))) (find_all (pattern_of k) s)

  -- `scanStringForPII`
  unfoldable pub scan_string : Text → Text
  scan_string s =
      if has_real email s
      then codes "real-looking " ++ kind_name email
      else if has_real ssn s
      then codes "real-looking " ++ kind_name ssn
      else if has_real phone s
      then codes "real-looking " ++ kind_name phone
      else []

  -- `scanForPII`, and its loops over an array and over a map.
  unfoldable mutual
    pub scan : Value → Text
    scan (string s) = scan_string s
    scan (array vs) = scan_items vs
    scan (object fs) = scan_fields fs
    scan null = []
    scan (bool _) = []
    scan (number _) = []

    pub scan_items : Items → Text
    scan_items nil = []
    scan_items (cons v vs) = let rest = scan_items vs in if scan v =ₜ [] then rest else scan v

    pub scan_fields : Fields → Text
    scan_fields end = []
    scan_fields (field k v fs) = let rest = scan_fields fs in if scan v =ₜ [] then rest else scan v

  abbrev pub pii_message : ℕ → Text → Text
  pii_message i hit =
      codes "inputSchema.examples["
      ++ decimal i
      ++ codes "] contains a "
      ++ hit
      ++ codes "; use a placeholder (e.g. user@example.com, 555-555-0100, 123-45-6789)"

  -- The loop of the callback from the example at index `i` on.
  unfoldable pub report_examples : ℕ → List Value → Context → Context
  report_examples i [] c = c
  report_examples i (ex ∷ exs) c =
      report_examples (suc i) exs (if scan ex =ₜ [] then c else report (pii_message i (scan ex)) c)

  -- The callback of the rule.
  unfoldable pub check : Context → Context
  check c = report_examples 0 (extract_examples c.tool.input_schema) c

  unfoldable pub rule : Rule
  rule = record {
    info = record {
      id = codes "tool-example-uses-real-pii";
      category = cat_examples;
      severity = sev_warning;
      description =
          codes
            "Schema examples should use placeholder values for emails, SSNs, and phone numbers; real-looking PII suggests it was pasted from production.";
      fix = fix_none;
    };
    implementation = some check;
    project_implementation = none;
    comparison_implementation = none;
  }
