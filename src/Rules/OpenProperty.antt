-- ===== src/Rules/OpenProperty.antt =====
-- The loop over the input properties that internal/rules/network.go and internal/rules/filepath.go share,
-- by the test that each makes of a property's name.
use mcpcheck.Prelude.{
  ℕ, ◌≡◌, refl, sym, ap, subst, ◌∙◌, ◌↔◌, ◌⊎◌, inl, inr, Bool, true, false, ◌&&◌, and-eq-true, List,
  [], ◌∷◌, ◌++◌, Option, some, none, Text, remove_all, remove_all-middle, to_lower, rune_to_lower,
  Tables, member, if◌then◌else◌, In, here, there, In-cons, arith, Bool-cases, not-false,
}
use mcpcheck.Mcpmodel.{Value, null, object, Fields, end, field, entries}
use mcpcheck.Rules.Schema.{schema_properties, has_string_value_constraint}

-- `isURLPropertyName` and `isPathPropertyName`, by their sets.
unfoldable pub is_listed_name : Tables → List Text → Text → Bool
is_listed_name u names key =
    let stripped = remove_all b'-' (remove_all b'_' (to_lower u key)) in member stripped names

to_lower-append : (u : Tables) (s t : Text) → to_lower u (s ++ t) ≡ to_lower u s ++ to_lower u t
unfolding to_lower
to_lower-append u [] t = refl
to_lower-append u (c ∷ s) t = ap (◌∷◌ (rune_to_lower u c)) (to_lower-append u s t)

lowered_separators :
    (u : Tables) (s : Text)
    → (to_lower u (b'_' ∷ s) ≡ b'_' ∷ to_lower u s) × (to_lower u (b'-' ∷ s) ≡ b'-' ∷ to_lower u s)
unfolding to_lower
lowered_separators u s = (refl, refl)

remove_all_comm :
    (c d : ℕ) (s : Text) → remove_all c (remove_all d s) ≡ remove_all d (remove_all c s)
unfolding remove_all
remove_all_comm c d [] = refl
remove_all_comm c d (e ∷ s) = ground (arith, remove_all_comm c d s)

-- An underscore or a dash, put anywhere into a property's name, does not change whether it is listed.
pub is_listed_name-separator :
    (u : Tables) (names : List Text) (s t : Text)
    → (is_listed_name u names (s ++ b'_' ∷ t) ≡ is_listed_name u names (s ++ t))
      × (is_listed_name u names (s ++ b'-' ∷ t) ≡ is_listed_name u names (s ++ t))
unfolding is_listed_name
is_listed_name-separator u names s t = (
  ap (λ z. member (remove_all b'-' z) names)
      (ap (remove_all b'_')
          (to_lower-append u s (b'_' ∷ t) ∙ ap (◌++◌ (to_lower u s)) (lowered_separators u t).0)
        ∙ remove_all-middle b'_' (to_lower u s) (to_lower u t)
        ∙ ap (remove_all b'_') (sym (to_lower-append u s t))),
  ap (λ z. member z names)
      (remove_all_comm b'-' b'_' _
        ∙ ap (remove_all b'_') (
            ap (remove_all b'-')
              (to_lower-append u s (b'-' ∷ t) ∙ ap (◌++◌ (to_lower u s)) (lowered_separators u t).1)
            ∙ remove_all-middle b'-' (to_lower u s) (to_lower u t)
            ∙ ap (remove_all b'-') (sym (to_lower-append u s t)))
        ∙ remove_all_comm b'_' b'-' _),
)

-- The value of a property is a schema with no `enum`, `pattern` or `const`.
abbrev pub IsUnconstrained : Value → Type 0
IsUnconstrained v = (prop : Fields) × (v ≡ object prop) × (has_string_value_constraint prop ≡ false)

is_unconstrained : Value → Bool
is_unconstrained (object prop) = if has_string_value_constraint prop then false else true
is_unconstrained _ = false

is_unconstrained_iff : (v : Value) → (is_unconstrained v ≡ true) ↔ IsUnconstrained v
unfolding is_unconstrained
is_unconstrained_iff (object prop) = (λ e. (prop, refl, ground arith), λ (ps, q, r). ground arith)
is_unconstrained_iff null = (λ e. absurd (cc), λ (_, q, _). absurd (cc))
is_unconstrained_iff _ = (λ e. absurd (cc), λ (_, q, _). absurd (cc))

module _ (named : Text → Bool) where
  -- The key that the loop reports: of the first property with such a name and an open schema.
  unfoldable pub first_open : Fields → Option Text
  unfolding is_unconstrained
  first_open end = none
  first_open (field key val props) =
      if named key && is_unconstrained val then some key else first_open props

  abbrev pub IsOpen : Text × Value → Type 0
  IsOpen (key, val) = (named key ≡ true) × IsUnconstrained val

  abbrev pub HasOpen : Fields → Type 0
  HasOpen props = (p : Text × Value) × In p (entries props) × IsOpen p

  pub first_open_cases :
      (props : Fields)
      → ((first_open props ≡ none) × (¬ HasOpen props))
        ⊎ ((p : Text × Value) × In p (entries props) × IsOpen p × (first_open props ≡ some p.0))
  unfolding first_open
  first_open_cases end = inl (refl, λ (p, h, _). elim h [ ])
  first_open_cases (field key val props) = elim (Bool-cases (named key && is_unconstrained val)) [
    | inl e ↦
        let (n, o) = (and-eq-true (named key) (is_unconstrained val)).0 e in
        inr ((key, val), here refl, (n, (is_unconstrained_iff val).0 o), rw e)
    | inr e ↦ elim (first_open_cases props) [
      | inl (q, n) ↦ inl (
        rw e q,
        λ (p, h, o). elim (In-cons h) [
          | inl z ↦
              let (a, b) = subst IsOpen z o in
              not-false e (
                (and-eq-true (named key) (is_unconstrained val)).1
                  (a, (is_unconstrained_iff val).1 b))
          | inr k ↦ n (p, k, o)
        ],
      )
      | inr (p, h, o, q) ↦ inr (p, there h, o, rw e q)
    ]
  ]

  -- The loop, where the schema has properties.
  pub exposed_key : Option Fields → Option Text
  exposed_key none = none
  exposed_key (some props) = first_open props

  -- The input schema has an open property with such a name.
  abbrev pub IsExposed : Option Fields → Type 0
  IsExposed schema = (props : Fields) × (schema_properties schema ≡ some props) × HasOpen props

  exposed_key_iff :
      (o : Option Fields)
      → (exposed_key o ≡ none) ↔ (¬ ((props : Fields) × (o ≡ some props) × HasOpen props))
  unfolding exposed_key
  exposed_key_iff none = (λ _. λ (ps, q, _). cc, λ _. refl)
  exposed_key_iff (some ps) = elim (first_open_cases ps) [
    | inl (q, n) ↦ (λ _. λ (qs, e, h). n (subst HasOpen (sym (the_same e)) h), λ _. q)
    | inr (p, h, o, q) ↦ (λ e. absurd (cc), λ n. absurd (n (ps, refl, (p, h, o))))
  ]
    where
      the_same : {qs : Fields} → some ps ≡ some qs → ps ≡ qs
      the_same e = cc

  pub open_key_iff :
      (schema : Option Fields)
      → (exposed_key (schema_properties schema) ≡ none) ↔ (¬ IsExposed schema)
  open_key_iff schema = exposed_key_iff (schema_properties schema)

  -- For two lists with the same properties in whatever order, the loop reports no key for the one exactly
  -- where it reports none for the other.
  pub first_open-order :
      (ps qs : Fields)
      → ((p : Text × Value) → In p (entries ps) → In p (entries qs))
      → ((p : Text × Value) → In p (entries qs) → In p (entries ps))
      → (first_open ps ≡ none) ↔ (first_open qs ≡ none)
  first_open-order ps qs f g = (half ps qs g, half qs ps f)
    where
      half :
          (xs ys : Fields)
          → ((p : Text × Value) → In p (entries ys) → In p (entries xs))
          → first_open xs ≡ none
          → first_open ys ≡ none
      half xs ys k e = elim (first_open_cases ys) [
        | inl (q, _) ↦ q
        | inr (p, h, o, q) ↦ elim (first_open_cases xs) [
          | inl (_, n) ↦ absurd (n (p, k p h, o))
          | inr (p', _, _, q') ↦ absurd (cc)
        ]
      ]
