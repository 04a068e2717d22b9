-- ===== src/Rules/Pii/Laws.antt =====
-- What the rule on examples finds.
use mathlib.Core.Logic.Iff
use mcpcheck.Prelude.{
  ℕ, suc, ◌≡◌, refl, sym, ap, subst, append-nil, ◌∙◌, ◌↔◌, inl, inr, Bool, false, not, List, [],
  ◌∷◌, ◌++◌, Text, ◌=ₜ◌, text_eq_iff, to_lower, Tables, any, if◌then◌else◌, In, here, there,
  In-cons, In-append, In-append_left, In-append_right, arith, Bool-cases, not-false,
}
use mcpcheck.Mcpmodel.{
  Value, null, bool, number, string, array, object, Items, nil, cons, Fields, end, field, Tool,
}
use mcpcheck.Registry.{Context, report, Meta, run}
use mcpcheck.Registry.Dispatch.{tool_findings, findings-report_each, report_each}
use mcpcheck.Rules.Pii.Placeholders.{
  IsPlaceholder, is_placeholder_iff, IsAmongExamples, extract_examples_iff,
}
use mcpcheck.Rules.Pii.{
  Kind, email, ssn, phone, pattern_of, is_placeholder, extract_examples, has_real, scan_string,
  scan, scan_items, scan_fields, pii_message, report_examples, check, rule,
}

-- The texts in a value, however deep, but for the keys of its maps.
unfoldable mutual
  pub texts_in : Value → List Text
  texts_in (string s) = s ∷ []
  texts_in (array vs) = texts_in_items vs
  texts_in (object fs) = texts_in_fields fs
  texts_in null = []
  texts_in (bool _) = []
  texts_in (number _) = []

  pub texts_in_items : Items → List Text
  texts_in_items nil = []
  texts_in_items (cons v vs) = texts_in v ++ texts_in_items vs

  pub texts_in_fields : Fields → List Text
  texts_in_fields end = []
  texts_in_fields (field k v fs) = texts_in v ++ texts_in_fields fs

any-false_iff :
    {A : Type 0} (p : A → Bool) (xs : List A)
    → (any p xs ≡ false) ↔ ((x : A) → In x xs → p x ≡ false)
any-false_iff p [] = (λ _ x h. elim h [ ], λ _. refl)
any-false_iff p (y ∷ ys) = (
  λ e x h. elim (In-cons h) [
    | inl q ↦ subst (λ z. p z ≡ false) (sym q) (ground arith)
    | inr k ↦ (any-false_iff p ys).0 (ground arith) x k
  ],
  λ f.
      let a : _ = f y (here refl) in
      let b : _ = (any-false_iff p ys).1 (λ x h. f x (there h)) in ground arith,
)

module _ (u : Tables) (find_all : Text → Text → List Text) where
  -- Every match of every pattern is a placeholder.
  abbrev pub IsHarmless : Text → Type 0
  IsHarmless s =
      (k : Kind) (m : Text) → In m (find_all (pattern_of k) s) → IsPlaceholder k (to_lower u m)

  has_real_iff :
      (k : Kind) (s : Text)
      → (has_real u find_all k s ≡ false)
        ↔ ((m : Text) → In m (find_all (pattern_of k) s) → IsPlaceholder k (to_lower u m))
  unfolding has_real
  has_real_iff k s =
      let (f, g) =
        any-false_iff (λ m. not (is_placeholder k (to_lower u m))) (find_all (pattern_of k) s) in
      (
        λ e m h. let q : _ = f e m h in (is_placeholder_iff k (to_lower u m)).0 (ground arith),
        λ h. g (λ m i. let q : _ = (is_placeholder_iff k (to_lower u m)).1 (h m i) in ground arith),
      )

  scan_string_cases :
      (s : Text)
      → (scan_string u find_all s ≡ []) ↔ (
          (has_real u find_all email s ≡ false)
          × (has_real u find_all ssn s ≡ false)
          × (has_real u find_all phone s ≡ false))
  unfolding scan_string
  scan_string_cases s = elim (Bool-cases (has_real u find_all email s)) [
    | inl a ↦ rw a (λ e. absurd (cc), λ (q, _, _). absurd (cc))
    | inr a ↦ elim (Bool-cases (has_real u find_all ssn s)) [
      | inl b ↦ rw (a, b) (λ e. absurd (cc), λ (_, q, _). absurd (cc))
      | inr b ↦ elim (Bool-cases (has_real u find_all phone s)) [
        | inl c ↦ rw (a, b, c) (λ e. absurd (cc), λ (_, _, q). absurd (cc))
        | inr c ↦ rw (a, b, c) (λ _. (refl, refl, refl), λ _. refl)
      ]
    ]
  ]

  scan_string_iff : (s : Text) → (scan_string u find_all s ≡ []) ↔ IsHarmless s
  scan_string_iff s = (
    λ e k. kinds k ((scan_string_cases s).0 e),
    λ h. (scan_string_cases s).1 (
      (has_real_iff email s).1 (h email),
      (has_real_iff ssn s).1 (h ssn),
      (has_real_iff phone s).1 (h phone),
    ),
  )
    where
      kinds :
          (k : Kind)
          → (has_real u find_all email s ≡ false)
            × (has_real u find_all ssn s ≡ false)
            × (has_real u find_all phone s ≡ false)
          → (m : Text) → In m (find_all (pattern_of k) s)
          → IsPlaceholder k (to_lower u m)
      kinds email h = (has_real_iff email s).0 h.0
      kinds ssn h = (has_real_iff ssn s).0 h.1
      kinds phone h = (has_real_iff phone s).0 h.2

  abbrev AreHarmless : List Text → Type 0
  AreHarmless ss = (s : Text) → In s ss → IsHarmless s

  -- One round of either loop.
  round_iff :
      (hit rest : Text) (xs ys : List Text)
      → (hit ≡ []) ↔ AreHarmless xs
      → (rest ≡ []) ↔ AreHarmless ys
      → ((if hit =ₜ [] then rest else hit) ≡ []) ↔ AreHarmless (xs ++ ys)
  round_iff hit rest xs ys (a, b) (c, d) = elim (Bool-cases (hit =ₜ [])) [
    | inl e ↦ rw e (
      λ q s h. elim (In-append xs ys h) [
        | inl i ↦ a ((text_eq_iff hit []).0 e) s i
        | inr i ↦ c q s i
      ],
      λ f. d (λ s i. f s (In-append_right xs i)),
    )
    | inr e ↦ rw e (
      λ q. absurd (not-false e ((text_eq_iff hit []).1 q)),
      λ f. b (λ s i. f s (In-append_left ys i)),
    )
  ]

  mutual
    unfolding scan texts_in

    scan_iff : (v : Value) → (scan u find_all v ≡ []) ↔ AreHarmless (texts_in v)
    scan_iff (string s) = (
      λ e x h. elim (In-cons h) [
        | inl q ↦ subst IsHarmless (sym q) ((scan_string_iff s).0 e)
        | inr i ↦ elim i [ ]
      ],
      λ f. (scan_string_iff s).1 (f s (here refl)),
    )
    scan_iff (array vs) = scan_items_iff vs
    scan_iff (object fs) = scan_fields_iff fs
    scan_iff null = (λ _ s h. elim h [ ], λ _. refl)
    scan_iff (bool _) = (λ _ s h. elim h [ ], λ _. refl)
    scan_iff (number _) = (λ _ s h. elim h [ ], λ _. refl)

    scan_items_iff :
        (vs : Items) → (scan_items u find_all vs ≡ []) ↔ AreHarmless (texts_in_items vs)
    scan_items_iff nil = (λ _ s h. elim h [ ], λ _. refl)
    scan_items_iff (cons v vs) =
        round_iff (scan u find_all v) (scan_items u find_all vs) (texts_in v) (texts_in_items vs)
          (scan_iff v) (scan_items_iff vs)

    scan_fields_iff :
        (fs : Fields) → (scan_fields u find_all fs ≡ []) ↔ AreHarmless (texts_in_fields fs)
    scan_fields_iff end = (λ _ s h. elim h [ ], λ _. refl)
    scan_fields_iff (field k v fs) =
        round_iff (scan u find_all v) (scan_fields u find_all fs) (texts_in v) (texts_in_fields fs)
          (scan_iff v) (scan_fields_iff fs)

  -- `scanForPII` finds nothing in a value exactly where, in each of its texts at any depth, every match of
  -- each of the three patterns is a placeholder.
  pub scan_for_pii_iff :
      (v : Value) → (scan u find_all v ≡ []) ↔ ((s : Text) → In s (texts_in v) → IsHarmless s)
  scan_for_pii_iff v = scan_iff v

  -- The messages for the examples from the index `i` on.
  messages : ℕ → List Value → List Text
  messages i [] = []
  messages i (ex ∷ exs) =
      if scan u find_all ex =ₜ []
      then messages (suc i) exs
      else pii_message u find_all i (scan u find_all ex) ∷ messages (suc i) exs

  report_examples-each :
      (i : ℕ) (exs : List Value) (c : Context)
      → report_examples u find_all i exs c ≡ report_each (messages i exs) c
  unfolding report_examples messages
  report_examples-each i [] c = refl
  report_examples-each i (ex ∷ exs) c = elim (Bool-cases (scan u find_all ex =ₜ [])) [
    | inl e ↦ rw e (report_examples-each (suc i) exs c)
    | inr e ↦ rw e (
        report_examples-each (suc i) exs (report (pii_message u find_all i (scan u find_all ex)) c))
  ]

  messages-nil_iff :
      (i : ℕ) (exs : List Value)
      → (messages i exs ≡ []) ↔ ((ex : Value) → In ex exs → scan u find_all ex ≡ [])
  unfolding messages
  messages-nil_iff i [] = (λ _ ex h. elim h [ ], λ _. refl)
  messages-nil_iff i (x ∷ exs) = elim (Bool-cases (scan u find_all x =ₜ [])) [
    | inl e ↦ rw e (
      λ q ex h. elim (In-cons h) [
        | inl p ↦ subst (λ z. scan u find_all z ≡ []) (sym p) ((text_eq_iff _ []).0 e)
        | inr k ↦ (messages-nil_iff (suc i) exs).0 q ex k
      ],
      λ f. (messages-nil_iff (suc i) exs).1 (λ ex h. f ex (there h)),
    )
    | inr e ↦
        rw e (λ q. absurd (cc), λ f. absurd (not-false e ((text_eq_iff _ []).1 (f x (here refl)))))
  ]

  run-pii :
      (t : Tool)
      → run (rule u find_all ∷ []) t
        ≡ tool_findings (rule u find_all).info t (messages 0 (extract_examples t.input_schema))
  unfolding run rule check
  run-pii t =
      append-nil _
      ∙ ap (λ (c : Context). c.findings)
          (report_examples-each 0 (extract_examples t.input_schema) _)
      ∙ findings-report_each (messages 0 (extract_examples t.input_schema)) _

  tool_findings-nil_iff :
      (r : Meta) (t : Tool) (ms : List Text) → (tool_findings r t ms ≡ []) ↔ (ms ≡ [])
  tool_findings-nil_iff r t [] = (λ _. refl, λ _. refl)
  tool_findings-nil_iff r t (m ∷ ms) = (λ e. absurd (cc), λ e. absurd (cc))

  -- The rule is silent exactly for the tools in whose array `examples`, at any depth, every match of the three
  -- patterns is a placeholder in lower case: an address at one of six domains, one of four numbers, or a
  -- number of seven digits from 555 on or of ten with 555 in front or behind the first three.
  pub pii_silent_iff :
      (t : Tool)
      → (run (rule u find_all ∷ []) t ≡ []) ↔ (
          (ex : Value)
          → IsAmongExamples t.input_schema ex
          → (s : Text) → In s (texts_in ex)
          → IsHarmless s)
  pii_silent_iff t = rw (run-pii t) (
      Iff.trans (tool_findings-nil_iff (rule u find_all).info t _) (
        Iff.trans (messages-nil_iff 0 (extract_examples t.input_schema)) (
          λ f ex h. (scan_for_pii_iff ex).0 (f ex ((extract_examples_iff _ ex).1 h)),
          λ f ex h. (scan_for_pii_iff ex).1 (f ex ((extract_examples_iff _ ex).0 h)),
        )))
