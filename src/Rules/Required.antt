-- ===== src/Rules/Required.antt =====
-- internal/rules/required_undefined.go: required names are to be declared properties.
pub mod Laws
use mathlib.Core.Logic.Iff
use mcpcheck.Prelude.{
  ◌≡◌, refl, ap, subst, ◌↔◌, ◌⊎◌, inl, inr, Bool, true, not, List, [], ◌∷◌, ◌++◌, Option, some,
  none, Text, codes, keep, In, here, there, In-cons, member, member_iff, sort, text_lt,
  text_lt-StrictWeak, IsSorted, sort-IsSorted, In-sort, Bool-cases, not-false,
}
use mcpcheck.Mcpmodel.{
  to_list, Value, null, bool, number, array, object, Tool, string, Items, nil, cons, Fields, lookup,
  as_object, as_array, keys,
}
use mcpcheck.Registry.{sev_error, fix_none, cat_spec, Context, Rule, run}
use mcpcheck.Registry.Single.{IsSingle, report_some, run-eq-nil_iff}

-- The entries that are strings, in order.
unfoldable pub strings_of : Items → List Text
strings_of nil = []
strings_of (cons (string s) vs) = s ∷ strings_of vs
strings_of (cons _ vs) = strings_of vs

-- `extractRequired`; nil is the empty list.
unfoldable pub extract_required : Fields → List Text
unfolding strings_of
extract_required schema = elim (lookup (codes "required") schema) [
  | none ↦ []
  | some raw ↦ elim (as_array raw) [ none ↦ [] | some arr ↦ strings_of arr ]
]

-- `propertyNames`; the set is the list of its members.
unfoldable pub property_names : Fields → List Text
property_names schema = elim (lookup (codes "properties") schema) [
  | none ↦ []
  | some raw ↦ elim (as_object raw) [ none ↦ [] | some props ↦ keys props ]
]

-- The `missing` of the callback before it is sorted.
unfoldable pub missing_names : Fields → List Text
missing_names schema =
    keep (λ name. not (member name (property_names schema))) (extract_required schema)

-- `%v` of a slice of strings
abbrev spaced : List Text → Text
spaced [] = []
spaced (s ∷ []) = s
spaced (s ∷ t ∷ ts) = s ++ codes " " ++ spaced (t ∷ ts)

abbrev missing_message : List Text → Text
missing_message names =
    codes "inputSchema.required references property name(s) not in properties: ["
    ++ spaced names
    ++ codes "]"

-- The message for the required and the missing names, if any: the callback returns early where one list
-- is empty.
unfoldable pub complain : List Text → List Text → Option Text
complain [] missing = none
complain (_ ∷ _) [] = none
complain (_ ∷ _) (m ∷ ms) = some (missing_message (sort text_lt (m ∷ ms)))

unfoldable pub complaint_of : Option Fields → Option Text
unfolding complain
complaint_of none = none
complaint_of (some schema) = complain (extract_required schema) (missing_names schema)

-- The callback of the rule.
unfoldable pub check : Context → Context
check c = report_some (complaint_of c.tool.input_schema) c

unfoldable pub rule : Rule
rule = record {
  info = record {
    id = codes "tool-schema-required-references-undefined-property";
    category = cat_spec;
    severity = sev_error;
    description =
        codes
          "Every name in inputSchema.required must exist in inputSchema.properties; otherwise the schema is internally inconsistent.";
    fix = fix_none;
  };
  implementation = some check;
  project_implementation = none;
  comparison_implementation = none;
}

abbrev pub complaint : Tool → Option Text
complaint t = complaint_of t.input_schema

pub rule-IsSingle : IsSingle rule complaint
unfolding rule check
rule-IsSingle = record { callback = check; declared = refl; reports = λ c. refl }
