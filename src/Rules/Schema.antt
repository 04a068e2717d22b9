-- ===== src/Rules/Schema.antt =====
-- internal/rules/schemautil.go, and the guards that the rules on input properties share.
use mcpcheck.Prelude.{
  ◌≡◌, refl, ap, ◌↔◌, Bool, true, false, Option, some, none, codes, if◌then◌else◌,
}
use mcpcheck.Mcpmodel.{Value, null, bool, number, string, array, object, Fields, lookup, as_object}
use mcpcheck.Registry.{is_some}

-- `schema["properties"]` as a map, or none where the schema is nil, lacks the key or has no map there.
unfoldable pub schema_properties : Option Fields → Option Fields
schema_properties none = none
schema_properties (some schema) = elim (lookup (codes "properties") schema) [
  | none ↦ none
  | some props_any ↦ as_object props_any
]

pub schema_properties_iff :
    (o : Option Fields) (props : Fields)
    → (schema_properties o ≡ some props) ↔ (
        (schema : Fields) × (o ≡ some schema)
        × (lookup (codes "properties") schema ≡ some (object props)))
unfolding schema_properties
schema_properties_iff none props = (λ e. absurd (cc), λ (schema, e, _). absurd (cc))
schema_properties_iff (some schema) props = (
  λ e. (schema, refl, of_value (lookup (codes "properties") schema) e),
  λ (other, p, e).
      let q : other ≡ schema = cc in held (lookup (codes "properties") schema) (rw q at e),
)
  where
    of_value :
        (v : Option Value)
        → (elim v [ none ↦ none | some props_any ↦ as_object props_any ]) ≡ some props
        → v ≡ some (object props)
    of_value none e = absurd (cc)
    of_value (some (object fs)) e = let q : fs ≡ props = cc in ap (λ z. some (object z)) q
    of_value (some null) e = absurd (cc)
    of_value (some (bool b)) e = absurd (cc)
    of_value (some (number n)) e = absurd (cc)
    of_value (some (string s)) e = absurd (cc)
    of_value (some (array vs)) e = absurd (cc)

    held :
        (v : Option Value)
        → v ≡ some (object props)
        → (elim v [ none ↦ none | some props_any ↦ as_object props_any ]) ≡ some props
    held v e = rw e refl

-- `hasStringValueConstraint`
unfoldable pub has_string_value_constraint : Fields → Bool
has_string_value_constraint prop_schema =
    if is_some (lookup (codes "enum") prop_schema)
    then true
    else if is_some (lookup (codes "pattern") prop_schema)
    then true
    else if is_some (lookup (codes "const") prop_schema)
    then true
    else false
