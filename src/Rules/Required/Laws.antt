-- ===== src/Rules/Required/Laws.antt =====
-- What the rule on required names finds.
use mathlib.Core.Logic.Iff
use mcpcheck.Prelude.{
  ◌≡◌, refl, ap, subst, ◌↔◌, ◌⊎◌, inl, inr, Bool, true, not, List, [], ◌∷◌, Option, some, none,
  Text, codes, keep, In, here, there, In-cons, member, member_iff, sort, text_lt,
  text_lt-StrictWeak, IsSorted, sort-IsSorted, In-sort, Bool-cases, not-false,
}
use mcpcheck.Mcpmodel.{
  to_list, Value, null, bool, number, array, object, Tool, string, Items, nil, cons, Fields, lookup,
  as_object, as_array, keys,
}
use mcpcheck.Registry.{run}
use mcpcheck.Registry.Single.{run-eq-nil_iff}
use mcpcheck.Rules.Required.{
  strings_of, extract_required, property_names, missing_names, complain, complaint_of, rule,
  rule-IsSingle,
}

In-keep :
    {x : Text} (p : Text → Bool) (xs : List Text) → In x (keep p xs) ↔ (In x xs × (p x ≡ true))
In-keep p [] = (λ h. elim h [ ], λ (h, _). elim h [ ])
In-keep {x} p (y ∷ ys) = elim (Bool-cases (p y)) [
  | inl e ↦ rw e (
    λ h. elim (In-cons h) [
      | inl z ↦ (here z, rw z e)
      | inr k ↦ let (a, b) = (In-keep p ys).0 k in (there a, b)
    ],
    λ (h, q). elim (In-cons h) [ inl z ↦ here z | inr k ↦ there ((In-keep p ys).1 (k, q)) ],
  )
  | inr e ↦ rw e (
    λ h. let (a, b) = (In-keep p ys).0 h in (there a, b),
    λ (h, q). elim (In-cons h) [
      | inl z ↦ absurd (not-false e (rw z at q))
      | inr k ↦ (In-keep p ys).1 (k, q)
    ],
  )
]

not-member_iff : (s : Text) (ts : List Text) → (not (member s ts) ≡ true) ↔ (¬ In s ts)
not-member_iff s ts = elim (Bool-cases (member s ts)) [
  | inl e ↦ rw e (λ p. absurd (cc), λ n. absurd (n ((member_iff s ts).0 e)))
  | inr e ↦ rw e (λ _ h. not-false e ((member_iff s ts).1 h), λ _. refl)
]

-- For a schema, the names that the rule reports are sorted, and they are exactly the required names that no
-- property has.
pub missing_names_lem :
    (schema : Fields)
    → IsSorted text_lt (sort text_lt (missing_names schema))
      × ((name : Text)
          → In name (sort text_lt (missing_names schema))
            ↔ (In name (extract_required schema) × (¬ In name (property_names schema))))
unfolding missing_names
missing_names_lem schema = (
  sort-IsSorted text_lt text_lt-StrictWeak (missing_names schema),
  λ name. Iff.trans (In-sort text_lt (missing_names schema)) (
      Iff.trans (In-keep (λ n. not (member n (property_names schema))) (extract_required schema))
        (λ (a, b). (a, (not-member_iff name _).0 b), λ (a, b). (a, (not-member_iff name _).1 b))),
)

-- The name is a string in the array at `required`.
abbrev pub IsRequired : Fields → Text → Type 0
IsRequired schema name =
    (arr : Items) × (lookup (codes "required") schema ≡ some (array arr))
    × In (string name) (to_list arr)

-- The name is a key of the object at `properties`.
abbrev pub IsDeclared : Fields → Text → Type 0
IsDeclared schema name =
    (props : Fields) × (lookup (codes "properties") schema ≡ some (object props))
    × In name (keys props)

-- Every required name is that of a property.
abbrev pub IsConsistent : Option Fields → Type 0
IsConsistent none = Unit
IsConsistent (some schema) = (name : Text) → IsRequired schema name → IsDeclared schema name

skip_iff :
    (name : Text) (v : Value) (vs : Items)
    → ¬ (string name ≡ v)
    → In name (strings_of vs) ↔ In (string name) (to_list vs)
    → In name (strings_of vs) ↔ In (string name) (v ∷ to_list vs)
skip_iff name v vs n (f, g) =
    (λ h. there (f h), λ h. elim (In-cons h) [ inl e ↦ absurd (n e) | inr i ↦ g i ])

strings_of_iff :
    (name : Text) (vs : Items) → In name (strings_of vs) ↔ In (string name) (to_list vs)
unfolding strings_of
strings_of_iff name nil = (λ h. elim h [ ], λ h. elim h [ ])
strings_of_iff name (cons (string s) vs) = (
  λ h. elim (In-cons h) [
    | inl e ↦ here (ap string e)
    | inr i ↦ there ((strings_of_iff name vs).0 i)
  ],
  λ h. elim (In-cons h) [ inl e ↦ here (cc) | inr i ↦ there ((strings_of_iff name vs).1 i) ],
)
strings_of_iff name (cons null vs) = skip_iff name null vs (λ e. cc) (strings_of_iff name vs)
strings_of_iff name (cons (bool b) vs) =
    skip_iff name (bool b) vs (λ e. cc) (strings_of_iff name vs)
strings_of_iff name (cons (number n) vs) =
    skip_iff name (number n) vs (λ e. cc) (strings_of_iff name vs)
strings_of_iff name (cons (array us) vs) =
    skip_iff name (array us) vs (λ e. cc) (strings_of_iff name vs)
strings_of_iff name (cons (object fs) vs) =
    skip_iff name (object fs) vs (λ e. cc) (strings_of_iff name vs)

extract_required_iff :
    (schema : Fields) (name : Text) → In name (extract_required schema) ↔ IsRequired schema name
unfolding extract_required
extract_required_iff schema name = of_value (lookup (codes "required") schema)
  where
    of_value :
        (o : Option Value)
        → In name (elim o [
          | none ↦ []
          | some raw ↦ elim (as_array raw) [ none ↦ [] | some arr ↦ strings_of arr ]
        ])
          ↔ ((arr : Items) × (o ≡ some (array arr)) × In (string name) (to_list arr))
    of_value none = (λ h. elim h [ ], λ (arr, e, i). absurd (cc))
    of_value (some (array vs)) = (
      λ h. (vs, refl, (strings_of_iff name vs).0 h),
      λ (arr, e, i).
          (strings_of_iff name vs).1
            (subst (λ (z : Items). In (string name) (to_list z)) (array_of e) i),
    )
      where
        array_of : {us ws : Items} → some (array us) ≡ some (array ws) → ws ≡ us
        array_of e = cc
    of_value (some null) = (λ h. elim h [ ], λ (arr, e, i). absurd (cc))
    of_value (some (bool b)) = (λ h. elim h [ ], λ (arr, e, i). absurd (cc))
    of_value (some (number n)) = (λ h. elim h [ ], λ (arr, e, i). absurd (cc))
    of_value (some (string s)) = (λ h. elim h [ ], λ (arr, e, i). absurd (cc))
    of_value (some (object fs)) = (λ h. elim h [ ], λ (arr, e, i). absurd (cc))

property_names_iff :
    (schema : Fields) (name : Text) → In name (property_names schema) ↔ IsDeclared schema name
unfolding property_names
property_names_iff schema name = of_value (lookup (codes "properties") schema)
  where
    of_value :
        (o : Option Value)
        → In name (elim o [
          | none ↦ []
          | some raw ↦ elim (as_object raw) [ none ↦ [] | some props ↦ keys props ]
        ])
          ↔ ((props : Fields) × (o ≡ some (object props)) × In name (keys props))
    of_value none = (λ h. elim h [ ], λ (props, e, i). absurd (cc))
    of_value (some (object fs)) = (
      λ h. (fs, refl, h),
      λ (props, e, i). subst (λ (z : Fields). In name (keys z)) (object_of e) i,
    )
      where
        object_of : {gs hs : Fields} → some (object gs) ≡ some (object hs) → hs ≡ gs
        object_of e = cc
    of_value (some null) = (λ h. elim h [ ], λ (props, e, i). absurd (cc))
    of_value (some (bool b)) = (λ h. elim h [ ], λ (props, e, i). absurd (cc))
    of_value (some (number n)) = (λ h. elim h [ ], λ (props, e, i). absurd (cc))
    of_value (some (string s)) = (λ h. elim h [ ], λ (props, e, i). absurd (cc))
    of_value (some (array vs)) = (λ h. elim h [ ], λ (props, e, i). absurd (cc))

complain_iff :
    (required missing : List Text)
    → ((name : Text) → In name missing → In name required)
    → (complain required missing ≡ none) ↔ ((name : Text) → ¬ In name missing)
unfolding complain
complain_iff [] missing f = (λ _ name h. elim (f name h) [ ], λ _. refl)
complain_iff (r ∷ rs) [] f = (λ _ name h. elim h [ ], λ _. refl)
complain_iff (r ∷ rs) (m ∷ ms) f = (λ e. absurd (cc), λ n. absurd (n m (here refl)))

In-missing_names :
    (schema : Fields) (name : Text)
    → In name (missing_names schema)
      ↔ (In name (extract_required schema) × (¬ In name (property_names schema)))
In-missing_names schema name =
    Iff.trans (Iff.symm (In-sort text_lt (missing_names schema)))
      ((missing_names_lem schema).1 name)

complaint_of_iff : (o : Option Fields) → (complaint_of o ≡ none) ↔ IsConsistent o
unfolding complaint_of
complaint_of_iff none = (λ _. tt, λ _. refl)
complaint_of_iff (some schema) =
    Iff.trans
      (complain_iff (extract_required schema) (missing_names schema)
        (λ name h. ((In-missing_names schema name).0 h).0))
      (
        λ n name h. (property_names_iff schema name).0 (
            declared name (member_cases name (property_names schema)) (n name)
              ((extract_required_iff schema name).1 h)),
        λ f name h.
            let (a, b) = (In-missing_names schema name).0 h in
            b (
              (property_names_iff schema name).1 (f name ((extract_required_iff schema name).0 a))),
      )
  where
    member_cases : (name : Text) (ts : List Text) → In name ts ⊎ (¬ In name ts)
    member_cases name ts = elim (Bool-cases (member name ts)) [
      | inl e ↦ inl ((member_iff name ts).0 e)
      | inr e ↦ inr (λ h. not-false e ((member_iff name ts).1 h))
    ]

    declared :
        (name : Text)
        → In name (property_names schema) ⊎ (¬ In name (property_names schema))
        → ¬ In name (missing_names schema)
        → In name (extract_required schema)
        → In name (property_names schema)
    declared name (inl p) n h = p
    declared name (inr p) n h = absurd (n ((In-missing_names schema name).1 (h, p)))

-- The rule is silent exactly for the tools without a schema and those whose schema has, for each string in its
-- array `required`, a key in its object `properties`.
pub required_silent_iff : (t : Tool) → (run (rule ∷ []) t ≡ []) ↔ IsConsistent t.input_schema
required_silent_iff t =
    Iff.trans (run-eq-nil_iff rule t rule-IsSingle) (complaint_of_iff t.input_schema)
