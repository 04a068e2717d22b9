-- ===== src/Rules/SnakeCase.antt =====
-- internal/rules/snakecase.go: tool names are to be in snake_case.
use mcpcheck.Prelude.{
  ℕ, ◌+◌, ◌-◌, ◌<◌, ◌≡◌, ◌≢◌, refl, ◌↔◌, ◌⊎◌, inl, inr, Bool, true, false, not, ◌||◌, [], ◌∷◌, ◌++◌,
  some, none, Text, codes, ◌=ₜ◌, text_eq_iff, rune_len, byte_len, Tables, is_lower, is_digit,
  if◌then◌else◌, ◌==◌, All, arith, Bool-cases, not-false, sym, ap, ◌∙◌, ℕ_discrete,
}
use mcpcheck.Mcpmodel.{Tool}
use mcpcheck.Registry.{
  sev_warning, fix_cosmetic, cat_spec, Context, report, Rule, Finding, tool_finding, run,
}
use mcpcheck.Registry.Dispatch.{OnlyReports}

abbrev pub quote : Text → Text
quote s = codes "\"" ++ s ++ codes "\""

abbrev complaint : Text → Text
complaint name = codes "tool name " ++ quote name ++ codes " is not snake_case"

module _ (u : Tables) where
  -- The `switch` on the rune at byte `i` of a text of `n` bytes; `rest` is what the later rounds return.
  snake_rune : ℕ → ℕ → ℕ → Bool → Bool
  snake_rune n i r rest =
      if is_lower u r
      then rest
      else if is_digit u r
      then (if i == 0 then false else rest)
      else if r == b'_'
      then (if i == 0 || i == n - 1 then false else rest)
      else false

  -- The loop of `isSnakeCase`: `n` is `len(s)`, and `i` the byte at which the rest begins.
  snake_from : ℕ → ℕ → Text → Bool
  snake_from n i [] = true
  snake_from n i (r ∷ s) = snake_rune n i r (snake_from n (i + rune_len r) s)

  unfoldable pub is_snake_case : Text → Bool
  unfolding snake_from snake_rune
  is_snake_case s = if s =ₜ [] then false else snake_from (byte_len s) 0 s

  -- The callback of the rule.
  unfoldable pub check : Context → Context
  check c =
      if c.tool.name =ₜ []
      then c
      else if not (is_snake_case c.tool.name)
      then report (complaint c.tool.name) c
      else c

  unfoldable pub rule : Rule
  rule = record {
    info = record {
      id = codes "tool-name-not-snake-case";
      category = cat_spec;
      severity = sev_warning;
      description =
          codes "MCP tool names should be snake_case so they read predictably in agent tool lists.";
      fix = fix_cosmetic;
    };
    implementation = some check;
    project_implementation = none;
    comparison_implementation = none;
  }

  -- A lower-case letter, a digit or an underscore.
  abbrev pub IsWordRune : ℕ → Type 0
  IsWordRune c = (is_lower u c ≡ true) ⊎ (is_digit u c ≡ true) ⊎ (c ≡ b'_')

  abbrev pub StartsLower : Text → Type 0
  StartsLower [] = ⊥
  StartsLower (c ∷ s) = is_lower u c ≡ true

  abbrev pub EndsWell : Text → Type 0
  EndsWell [] = Unit
  EndsWell (c ∷ []) = c ≢ b'_'
  EndsWell (c ∷ d ∷ s) = EndsWell (d ∷ s)

  abbrev pub IsSnakeCase : Text → Type 0
  IsSnakeCase s = StartsLower s × All IsWordRune s × EndsWell s

  byte_len-cons : (c : ℕ) (s : Text) → 0 < byte_len (c ∷ s)
  unfolding byte_len
  byte_len-cons c s = ground arith

  byte_len-eq : (c : ℕ) (s : Text) → byte_len (c ∷ s) ≡ rune_len c + byte_len s
  unfolding byte_len
  byte_len-eq c s = refl

  byte_len-nil : byte_len [] ≡ 0
  unfolding byte_len
  byte_len-nil = refl

  rune_len-pos : (c : ℕ) → 0 < rune_len c
  unfolding rune_len
  rune_len-pos c = ground arith

  byte_len-underscore : (s : Text) → byte_len (b'_' ∷ s) ≡ 1 + byte_len s
  unfolding byte_len
  byte_len-underscore s = refl

  lower-ne-underscore : (c : ℕ) → is_lower u c ≡ true → c ≢ b'_'
  unfolding is_lower
  lower-ne-underscore c h e = ground arith

  digit-ne-underscore : (c : ℕ) → is_digit u c ≡ true → c ≢ b'_'
  unfolding is_digit
  digit-ne-underscore c h e = ground arith

  EndsWell-cons : (c : ℕ) (s : Text) → c ≢ b'_' → EndsWell (c ∷ s) ↔ EndsWell s
  EndsWell-cons c [] n = (λ _. tt, λ _. n)
  EndsWell-cons c (d ∷ s) n = (λ h. h, λ h. h)

  module _ (n i c : ℕ) (rest : Bool) where
    rune_lower : is_lower u c ≡ true → snake_rune n i c rest ≡ rest
    unfolding snake_rune
    rune_lower l = rw l

    rune_digit : 0 < i → is_lower u c ≡ false → is_digit u c ≡ true → snake_rune n i c rest ≡ rest
    unfolding snake_rune
    rune_digit h l d = ground arith

    rune_underscore :
        0 < i
        → i ≢ n - 1
        → is_lower u c ≡ false
        → is_digit u c ≡ false
        → c ≡ b'_'
        → snake_rune n i c rest ≡ rest
    unfolding snake_rune
    rune_underscore h k l d e = ground arith

    rune_last :
        i ≡ n - 1 → is_lower u c ≡ false → is_digit u c ≡ false → snake_rune n i c rest ≡ false
    unfolding snake_rune
    rune_last k l d = ground arith

    rune_start : i ≡ 0 → is_lower u c ≡ false → snake_rune n i c rest ≡ false
    unfolding snake_rune
    rune_start k l = ground arith

    rune_other :
        is_lower u c ≡ false → is_digit u c ≡ false → c ≢ b'_' → snake_rune n i c rest ≡ false
    unfolding snake_rune
    rune_other l d e = ground arith

  abbrev Tail : Text → Type 0
  Tail s = All IsWordRune s × EndsWell s

  refused : {b : Bool} {P : Type 0} → b ≡ false → ¬ P → (b ≡ true) ↔ P
  refused e n = (λ p. absurd (not-false e p), λ p. absurd (n p))

  plain :
      (c : ℕ) (s : Text) {b rest : Bool}
      → b ≡ rest
      → IsWordRune c
      → c ≢ b'_'
      → (rest ≡ true) ↔ Tail s
      → (b ≡ true) ↔ Tail (c ∷ s)
  plain c s e w ne ih = (
    λ q. let (a, b) = ih.0 (sym e ∙ q) in ((w, a), (EndsWell-cons c s ne).1 b),
    λ (a, b). e ∙ ih.1 (a.1, (EndsWell-cons c s ne).0 b),
  )

  -- An underscore behind the first byte: it may not be the last.
  under :
      (n i c : ℕ) (s : Text) (rest : Bool)
      → 0 < i
      → i + byte_len (c ∷ s) ≡ n
      → is_lower u c ≡ false
      → is_digit u c ≡ false
      → c ≡ b'_'
      → (rest ≡ true) ↔ Tail s
      → (snake_rune n i c rest ≡ true) ↔ Tail (c ∷ s)
  under n i c [] rest h e l d p ih =
      refused (rune_last n i c rest (last_byte p) l d) (λ (_, b). b p)
    where
      last_byte : c ≡ b'_' → i ≡ n - 1
      last_byte q =
          omega (arith, ap (λ z. byte_len (z ∷ [])) q, byte_len-underscore [], byte_len-nil)
  under n i c (y ∷ z) rest h e l d p ih = (
    λ q. let (a, b) = ih.0 (sym same ∙ q) in ((inr (inr p), a), b),
    λ (a, b). same ∙ ih.1 (a.1, b),
  )
    where
      same : snake_rune n i c rest ≡ rest
      same =
          rune_underscore n i c rest h
            (λ k. omega (
              arith,
              ap (λ w. byte_len (w ∷ y ∷ z)) p,
              byte_len-underscore (y ∷ z),
              byte_len-cons y z,
            ))
            l d p

  -- One round of the loop behind the first byte, by the kind of the code point.
  snake_step :
      (n i c : ℕ) (s : Text) (rest : Bool)
      → 0 < i
      → i + byte_len (c ∷ s) ≡ n
      → (rest ≡ true) ↔ Tail s
      → (snake_rune n i c rest ≡ true) ↔ Tail (c ∷ s)
  snake_step n i c s rest h e ih = elim (Bool-cases (is_lower u c)) [
    | inl l ↦ plain c s (rune_lower n i c rest l) (inl l) (lower-ne-underscore c l) ih
    | inr l ↦ elim (Bool-cases (is_digit u c)) [
      | inl d ↦ plain c s (rune_digit n i c rest h l d) (inr (inl d)) (digit-ne-underscore c d) ih
      | inr d ↦ elim (ℕ_discrete c b'_') [
        | yes p ↦ under n i c s rest h e l d p ih
        | no p ↦ refused (rune_other n i c rest l d p) (λ (w, _). elim w.0 [
          | inl a ↦ not-false l a
          | inr (inl a) ↦ not-false d a
          | inr (inr a) ↦ p a
        ])
      ]
    ]
  ]

  snake_from_iff :
      (n i : ℕ) (s : Text)
      → 0 < i
      → i + byte_len s ≡ n
      → (snake_from n i s ≡ true) ↔ (All IsWordRune s × EndsWell s)
  unfolding snake_from
  snake_from_iff n i [] h e = (λ _. (tt, tt), λ _. refl)
  snake_from_iff n i (c ∷ s) h e =
      snake_step n i c s _ h e
        (snake_from_iff n (i + rune_len c) s (omega arith) (omega (arith, byte_len-eq c s)))

  -- `isSnakeCase` accepts exactly the texts that begin with a lower-case letter, consist of
  -- lower-case letters, digits and underscores, and do not end with an underscore.
  pub is_snake_case_iff : (s : Text) → (is_snake_case s ≡ true) ↔ IsSnakeCase s
  unfolding is_snake_case ◌=ₜ◌
  is_snake_case_iff [] = (λ e. absurd (cc), λ (h, _, _). absurd h)
  is_snake_case_iff (c ∷ s) = elim (Bool-cases (is_lower u c)) [
    | inl l ↦
        let n = byte_len (c ∷ s) in
        let (to, from) =
          plain c s (rune_lower n 0 c (snake_from n (0 + rune_len c) s) l) (inl l)
            (lower-ne-underscore c l)
            (snake_from_iff n (0 + rune_len c) s (omega (arith, rune_len-pos c))
              (omega (arith, byte_len-eq c s))) in
        (λ e. let (a, b) = to e in (l, a, b), λ (_, a, b). from (a, b))
    | inr l ↦ (
      λ e. absurd (
          not-false
            (rune_start (byte_len (c ∷ s)) 0 c (snake_from (byte_len (c ∷ s)) (0 + rune_len c) s)
              refl l)
            e),
      λ (a, _, _). absurd (not-false l a),
    )
  ]

  abbrev pub is_accepted : Text → Bool
  is_accepted name = name =ₜ [] || is_snake_case name

  abbrev pub IsAccepted : Text → Type 0
  IsAccepted name = (name ≡ []) ⊎ IsSnakeCase name

  is_accepted_iff : (s : Text) → (is_accepted s ≡ true) ↔ IsAccepted s
  is_accepted_iff s = elim (Bool-cases (s =ₜ [])) [
    | inl e ↦ (λ _. inl ((text_eq_iff s []).0 e), λ _. rw e)
    | inr e ↦ rw e (
      λ h. inr ((is_snake_case_iff s).0 h),
      λ h. elim h [
        | inl p ↦ absurd (not-false e ((text_eq_iff s []).1 p))
        | inr k ↦ (is_snake_case_iff s).1 k
      ],
    )
  ]

  pub check-OnlyReports : OnlyReports check
  unfolding check
  check-OnlyReports = record {
    messages = λ t. if is_accepted t.name then [] else complaint t.name ∷ [];
    reports = λ c. ground arith;
  }

  -- The rule reports nothing for a tool without a name or with a name in snake_case, and for any other
  -- tool it makes exactly one finding, a warning.
  pub rule_findings :
      (t : Tool)
      → (IsAccepted t.name × (run (rule ∷ []) t ≡ []))
        ⊎ ((¬ IsAccepted t.name)
            × ((x : Finding) × (run (rule ∷ []) t ≡ x ∷ [])
                × (x.severity ≡ sev_warning)
                × (x.tool_name ≡ t.name)))
  unfolding rule check report run
  rule_findings t = elim (Bool-cases (is_accepted t.name)) [
    | inl e ↦ inl ((is_accepted_iff t.name).0 e, ground arith)
    | inr e ↦ inr (
      λ a. not-false e ((is_accepted_iff t.name).1 a),
      (tool_finding rule.info t (complaint t.name), ground arith, refl, refl),
    )
  ]
