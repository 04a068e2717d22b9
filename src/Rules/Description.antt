-- ===== src/Rules/Description.antt =====
-- internal/rules/description.go: descriptions are to be non-empty and not cut off.
use mcpcheck.Prelude.{
  ℕ, ◌≤◌, ◌≡◌, refl, ap, ◌↔◌, ◌⊎◌, inl, inr, Bool, true, false, [], ◌∷◌, ◌++◌, Option, some, none,
  Text, codes, ◌=ₜ◌, text_eq_iff, has_suffix, has_suffix_iff, trim_space, byte_len, if◌then◌else◌,
  ltb, arith, Bool-cases, not-false,
}
use mcpcheck.Mcpmodel.{Tool}
use mcpcheck.Registry.{sev_warning, fix_none, cat_spec, Context, report, Rule, run}
use mcpcheck.Registry.Single.{IsSingle, run-IsSingle, run-eq-nil_iff, found}
use mathlib.Core.Logic.Iff

abbrev pub min_description_len : ℕ
min_description_len = 4

-- `endsTruncated`
unfoldable pub ends_truncated : Text → Bool
ends_truncated s =
    if has_suffix s (codes "...") then true else if has_suffix s (codes "…") then true else false

abbrev pub empty_message : Text
empty_message = codes "tool description is empty"

abbrev pub short_message : Text
short_message = codes "tool description is too short to be informative"

abbrev pub truncated_message : Text
truncated_message = codes "tool description appears to be truncated"

-- The callback of the rule.
unfoldable pub check : Context → Context
check c =
    let trimmed = trim_space c.tool.description in
    if trimmed =ₜ []
    then report empty_message c
    else if ltb (byte_len trimmed) min_description_len
    then report short_message c
    else if ends_truncated trimmed
    then report truncated_message c
    else c

unfoldable pub rule : Rule
rule = record {
  info = record {
    id = codes "tool-description-empty-or-truncated";
    category = cat_spec;
    severity = sev_warning;
    description =
        codes
          "Tool descriptions must be non-empty and not visibly truncated; agents rely on them to choose tools.";
    fix = fix_none;
  };
  implementation = some check;
  project_implementation = none;
  comparison_implementation = none;
}

-- The text ends in three dots or in an ellipsis.
abbrev pub IsTruncated : Text → Type 0
IsTruncated s = (r : Text) × ((s ≡ r ++ codes "...") ⊎ (s ≡ r ++ codes "…"))

ends_truncated_iff : (s : Text) → (ends_truncated s ≡ true) ↔ IsTruncated s
unfolding ends_truncated
ends_truncated_iff s = (
  λ e. elim (Bool-cases (has_suffix s (codes "..."))) [
    | inl p ↦ let (r, q) = (has_suffix_iff s (codes "...")).0 p in (r, inl q)
    | inr p ↦ elim (Bool-cases (has_suffix s (codes "…"))) [
      | inl k ↦ let (r, q) = (has_suffix_iff s (codes "…")).0 k in (r, inr q)
      | inr k ↦ absurd (ground arith)
    ]
  ],
  λ (r, h). elim h [
    | inl q ↦ ground (arith, (has_suffix_iff s (codes "...")).1 (r, q))
    | inr q ↦ ground (arith, (has_suffix_iff s (codes "…")).1 (r, q))
  ],
)

-- The message for a trimmed description, by the first of the three faults that it has.
abbrev pub fault : Text → Option Text
fault trimmed =
    if trimmed =ₜ []
    then some empty_message
    else if ltb (byte_len trimmed) min_description_len
    then some short_message
    else if ends_truncated trimmed
    then some truncated_message
    else none

abbrev pub complaint : Tool → Option Text
complaint t = fault (trim_space t.description)

pub rule-IsSingle : IsSingle rule complaint
unfolding rule check
rule-IsSingle = record { callback = check; declared = refl; reports = λ c. ground arith }

-- The description without the space round it has at least four bytes and is not cut off.
abbrev pub IsInformative : Text → Type 0
IsInformative s = (4 ≤ byte_len s) × (¬ IsTruncated s)

byte_len-nil : byte_len [] ≡ 0
unfolding byte_len
byte_len-nil = refl

fault_iff : (s : Text) → (fault s ≡ none) ↔ IsInformative s
fault_iff s = elim (Bool-cases (s =ₜ [])) [
  | inl e ↦ rw e (
    λ p. absurd (cc),
    λ (h, _). absurd (omega (arith, byte_len-nil, ap byte_len ((text_eq_iff s []).0 e))),
  )
  | inr e ↦ elim (Bool-cases (ltb (byte_len s) min_description_len)) [
    | inl l ↦ rw (e, l) (λ p. absurd (cc), λ (h, _). absurd (ground arith))
    | inr l ↦ elim (Bool-cases (ends_truncated s)) [
      | inl c ↦ rw (e, l, c) (λ p. absurd (cc), λ (_, n). absurd (n ((ends_truncated_iff s).0 c)))
      | inr c ↦
          (λ _. (ground arith, λ h. not-false c ((ends_truncated_iff s).1 h)), λ _. rw (e, l, c))
    ]
  ]
]

-- The rule reports nothing exactly for the tools whose trimmed description has at least four bytes and
-- does not end in three dots or an ellipsis.
pub description_silent_iff :
    (t : Tool) → (run (rule ∷ []) t ≡ []) ↔ IsInformative (trim_space t.description)
description_silent_iff t =
    Iff.trans (run-eq-nil_iff rule t rule-IsSingle) (fault_iff (trim_space t.description))

-- A faulty description gets exactly one finding: that it is empty where nothing but space is there, else
-- that it is short where fewer than four bytes are left, else that it is cut off.
pub one_fault :
    (t : Tool) → run (rule ∷ []) t ≡ found rule.info t (fault (trim_space t.description))
one_fault t = run-IsSingle rule t rule-IsSingle
