-- ===== src/Rules/Destructive.antt =====
-- internal/rules/destructive.go: tools that destroy or publish are to ask for confirmation.
use mathlib.Core.Logic.Iff
use mcpcheck.Prelude.{
  ◌≡◌, ◌≢◌, refl, sym, subst, ◌↔◌, ◌⊎◌, inl, inr, Bool, true, false, ◌||◌, List, [], ◌∷◌, ◌++◌,
  Option, some, none, Text, codes, ◌=ₜ◌, text_eq_iff, has_prefix, has_prefix_iff, to_lower,
  remove_all, member, member_iff, Tables, if◌then◌else◌, In, here, there, In-cons, any, any_iff,
  arith, Bool-cases, not-false,
}
use mcpcheck.Mcpmodel.{object, lookup, Tool, Fields, keys}
use mcpcheck.Rules.Schema.{schema_properties, schema_properties_iff}
use mcpcheck.Registry.{sev_error, fix_none, cat_safety, Context, report, Rule, run}
use mcpcheck.Registry.Single.{IsSingle, run-eq-nil_iff}

abbrev pub destructive_prefixes : List Text
destructive_prefixes =
    codes "delete"
    ∷ codes "remove"
    ∷ codes "drop"
    ∷ codes "purge"
    ∷ codes "destroy"
    ∷ codes "clear"
    ∷ codes "reset"
    ∷ codes "send"
    ∷ codes "post"
    ∷ codes "publish"
    ∷ codes "transfer"
    ∷ codes "pay"
    ∷ codes "charge"
    ∷ codes "submit"
    ∷ codes "merge"
    ∷ codes "deploy"
    ∷ codes "close"
    ∷ codes "archive"
    ∷ codes "revoke"
    ∷ []

abbrev pub confirmation_field_names : List Text
confirmation_field_names =
    codes "confirm"
    ∷ codes "confirmed"
    ∷ codes "confirmation"
    ∷ codes "requires_confirmation"
    ∷ codes "requiresconfirmation"
    ∷ codes "acknowledged"
    ∷ codes "acknowledge"
    ∷ codes "i_understand"
    ∷ codes "iunderstand"
    ∷ codes "force"
    ∷ codes "dry_run"
    ∷ codes "dryrun"
    ∷ []

-- The loop of `destructivePrefix`.
first_prefix : Text → List Text → Text
first_prefix lower [] = []
first_prefix lower (p ∷ ps) =
    if lower =ₜ p || has_prefix lower (p ++ codes "_") then p else first_prefix lower ps

module _ (u : Tables) where
  unfoldable pub destructive_prefix : Text → Text
  unfolding first_prefix
  destructive_prefix name =
      if name =ₜ [] then [] else first_prefix (to_lower u name) destructive_prefixes

  unfoldable pub is_confirmation_name : Text → Bool
  is_confirmation_name key =
      let normalized = to_lower u key in
      if member normalized confirmation_field_names
      then true
      else member (remove_all b'-' (remove_all b'_' normalized)) confirmation_field_names

  -- The loop over the properties of the schema, if there are any.
  pub asks : Option Fields → Bool
  asks none = false
  asks (some props) = any is_confirmation_name (keys props)

  unfoldable pub has_confirmation_field : Option Fields → Bool
  unfolding asks
  has_confirmation_field schema = asks (schema_properties schema)

  abbrev ungated_message : Text → Text
  ungated_message prefix =
      codes "tool name starts with destructive prefix \""
      ++ prefix
      ++ codes
          "\" but schema has no confirmation field (expected one of: confirm, confirmed, requires_confirmation, acknowledged, dry_run, force)"

  -- The callback of the rule.
  unfoldable pub check : Context → Context
  check c =
      let prefix = destructive_prefix c.tool.name in
      if prefix =ₜ []
      then c
      else if has_confirmation_field c.tool.input_schema
      then c
      else report (ungated_message prefix) c

  unfoldable pub rule : Rule
  rule = record {
    info = record {
      id = codes "destructive-tool-not-gated";
      category = cat_safety;
      severity = sev_error;
      description =
          codes
            "Tools whose name implies a destructive or externally-visible action must require explicit confirmation through the schema.";
      fix = fix_none;
    };
    implementation = some check;
    project_implementation = none;
    comparison_implementation = none;
  }

  -- The name is a destructive word, or such a word and an underscore begin it, in any case.
  abbrev pub StartsWith : Text → Text → Type 0
  StartsWith p lower = (lower ≡ p) ⊎ ((r : Text) × (lower ≡ (p ++ codes "_") ++ r))

  abbrev pub IsDestructive : Text → Type 0
  IsDestructive name = (p : Text) × In p destructive_prefixes × StartsWith p (to_lower u name)

  prefix_match_iff :
      (lower p : Text)
      → ((lower =ₜ p || has_prefix lower (p ++ codes "_")) ≡ true) ↔ StartsWith p lower
  prefix_match_iff lower p = elim (Bool-cases (lower =ₜ p)) [
    | inl e ↦ (λ _. inl ((text_eq_iff lower p).0 e), λ _. rw e)
    | inr e ↦ rw e (
      λ h. inr ((has_prefix_iff lower (p ++ codes "_")).0 h),
      λ h. elim h [
        | inl q ↦ absurd (not-false e ((text_eq_iff lower p).1 q))
        | inr k ↦ (has_prefix_iff lower (p ++ codes "_")).1 k
      ],
    )
  ]

  -- What the loop returns, for any list of words that are not empty.
  first_prefix_cases :
      (lower : Text) (ps : List Text)
      → ((first_prefix lower ps ≡ []) × ((p : Text) → In p ps → ¬ StartsWith p lower))
        ⊎ (In (first_prefix lower ps) ps × StartsWith (first_prefix lower ps) lower)
  unfolding first_prefix
  first_prefix_cases lower [] = inl (refl, λ p h. elim h [ ])
  first_prefix_cases lower (p ∷ ps) =
      elim (Bool-cases (lower =ₜ p || has_prefix lower (p ++ codes "_"))) [
        | inl e ↦ rw e (inr (here refl, (prefix_match_iff lower p).0 e))
        | inr e ↦ rw e (elim (first_prefix_cases lower ps) [
          | inl (q, n) ↦ inl (
            q,
            λ w h. elim (In-cons h) [
              | inl z ↦ λ s. not-false e ((prefix_match_iff lower p).1 (rw z at s))
              | inr k ↦ n w k
            ],
          )
          | inr (i, s) ↦ inr (there i, s)
        ])
      ]

  no_empty_word : member [] destructive_prefixes ≡ false
  unfolding member ◌=ₜ◌
  no_empty_word = refl

  words_not_empty : ¬ In [] destructive_prefixes
  words_not_empty h = not-false no_empty_word ((member_iff [] destructive_prefixes).1 h)

  to_lower-nil : to_lower u [] ≡ []
  unfolding to_lower
  to_lower-nil = refl

  not-StartsWith-nil : (p : Text) → In p destructive_prefixes → ¬ StartsWith p []
  not-StartsWith-nil p h (inl e) =
      words_not_empty (subst (λ z. In z destructive_prefixes) (sym e) h)
  not-StartsWith-nil [] h (inr (r, e)) = cc
  not-StartsWith-nil (c ∷ p) h (inr (r, e)) = cc

  -- `destructivePrefix` returns the empty text exactly for the names that are not destructive, and for any
  -- other name a word of the list that the name, lowered, is or begins with before an underscore.
  pub destructive_prefix_cases :
      (name : Text)
      → ((destructive_prefix name ≡ []) × (¬ IsDestructive name))
        ⊎ ((destructive_prefix name ≢ [])
            × In (destructive_prefix name) destructive_prefixes
            × StartsWith (destructive_prefix name) (to_lower u name))
  unfolding destructive_prefix
  destructive_prefix_cases name = elim (Bool-cases (name =ₜ [])) [
    | inl e ↦ inl (
      rw e,
      λ (p, h, s). not-StartsWith-nil p h (rw ((text_eq_iff name []).0 e, to_lower-nil) at s),
    )
    | inr e ↦ rw e (elim (first_prefix_cases (to_lower u name) destructive_prefixes) [
      | inl (q, n) ↦ inl (q, λ (p, h, s). n p h s)
      | inr (h, s) ↦ inr (λ q. words_not_empty (subst (λ z. In z destructive_prefixes) q h), h, s)
    ])
  ]

  -- A property name that stands for a confirmation, as it is or without its separators, in any case.
  abbrev pub ConfirmationName : Text → Type 0
  ConfirmationName key =
      In (to_lower u key) confirmation_field_names
      ⊎ In (remove_all b'-' (remove_all b'_' (to_lower u key))) confirmation_field_names

  is_confirmation_name_iff : (key : Text) → (is_confirmation_name key ≡ true) ↔ ConfirmationName key
  unfolding is_confirmation_name
  is_confirmation_name_iff key =
      elim (Bool-cases (member (to_lower u key) confirmation_field_names)) [
        | inl e ↦ (λ _. inl ((member_iff _ _).0 e), λ _. rw e)
        | inr e ↦ rw e (
          λ h. inr ((member_iff _ _).0 h),
          λ h. elim h [
            | inl k ↦ absurd (not-false e ((member_iff _ _).1 k))
            | inr k ↦ (member_iff _ _).1 k
          ],
        )
      ]

  -- The schema declares an input property with such a name.
  abbrev pub IsGated : Option Fields → Type 0
  IsGated schema =
      (fields props : Fields) × (schema ≡ some fields)
      × (lookup (codes "properties") fields ≡ some (object props))
      × ((key : Text) × In key (keys props) × ConfirmationName key)

  asks_iff :
      (o : Option Fields)
      → (asks o ≡ true) ↔ (
          (props : Fields) × (o ≡ some props)
          × ((key : Text) × In key (keys props) × ConfirmationName key))
  unfolding asks
  asks_iff none = (λ p. absurd (cc), λ (ps, q, _). absurd (cc))
  asks_iff (some ps) = (
    λ p.
        let (k, i, q) = (any_iff is_confirmation_name (keys ps)).0 p in
        (ps, refl, (k, i, (is_confirmation_name_iff k).0 q)),
    λ (qs, q, r).
        let same : ps ≡ qs = cc in
        (any_iff is_confirmation_name (keys ps)).1
          (r.0, subst (λ z. In r.0 (keys z)) (sym same) r.1, (is_confirmation_name_iff r.0).1 r.2),
  )

  has_confirmation_field_iff :
      (schema : Option Fields) → (has_confirmation_field schema ≡ true) ↔ IsGated schema
  unfolding has_confirmation_field
  has_confirmation_field_iff schema =
      let (f, g) = asks_iff (schema_properties schema) in
      (
        λ e.
            let (props, p, k) = f e in
            let (fields, q, r) = (schema_properties_iff schema props).0 p in
            (fields, props, q, r, k),
        λ (fields, props, q, r, k).
            g (props, (schema_properties_iff schema props).1 (fields, q, r), k),
      )

  pub complaint : Tool → Option Text
  complaint t =
      let prefix = destructive_prefix t.name in
      if prefix =ₜ []
      then none
      else if has_confirmation_field t.input_schema
      then none
      else some (ungated_message prefix)

  pub rule-IsSingle : IsSingle rule complaint
  unfolding rule check complaint
  rule-IsSingle = record { callback = check; declared = refl; reports = λ c. ground arith }

  complaint_iff :
      (t : Tool) → (complaint t ≡ none) ↔ ((¬ IsDestructive t.name) ⊎ IsGated t.input_schema)
  unfolding complaint
  complaint_iff t = elim (destructive_prefix_cases t.name) [
    | inl (q, n) ↦ (λ _. inl n, λ _. ground (arith, text_eq_iff (destructive_prefix t.name) []))
    | inr (q, h, s) ↦ elim (Bool-cases (has_confirmation_field t.input_schema)) [
      | inl g ↦ (λ _. inr ((has_confirmation_field_iff t.input_schema).0 g), λ _. ground arith)
      | inr g ↦ (
        λ e. absurd (ground (arith, text_eq_iff (destructive_prefix t.name) [])),
        λ r. elim r [
          | inl n ↦ absurd (n (destructive_prefix t.name, h, s))
          | inr y ↦ absurd (not-false g ((has_confirmation_field_iff t.input_schema).1 y))
        ],
      )
    ]
  ]

  -- The rule is silent exactly for tools whose name is not destructive and for those whose input schema
  -- declares a confirmation property.
  pub gate_silent_iff :
      (t : Tool) → (run (rule ∷ []) t ≡ []) ↔ ((¬ IsDestructive t.name) ⊎ IsGated t.input_schema)
  gate_silent_iff t = Iff.trans (run-eq-nil_iff rule t rule-IsSingle) (complaint_iff t)
