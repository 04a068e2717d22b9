-- ===== src/Rules/Pii/Placeholders.antt =====
-- Which matches are placeholders, and which values are examples.
use mcpcheck.Prelude.{
  ℕ, ◌≤◌, ◌≡◌, refl, sym, ap, subst, ◌∙◌, ◌↔◌, ◌⊎◌, inl, inr, true, ◌&&◌, ◌||◌, [], ◌∷◌, ◌++◌,
  Option, some, none, Text, codes, has_prefix, has_prefix_iff, has_suffix, has_suffix_iff,
  member_iff, any_iff, length, leb, if◌then◌else◌, ◌==◌, In, arith, Bool-cases, not-false,
}
use mcpcheck.Mcpmodel.{
  Value, null, bool, number, string, array, object, Items, Fields, lookup, as_array, to_list,
}
use mcpcheck.Rules.Pii.{
  Kind, email, ssn, phone, placeholder_email_domains, email_is_placeholder, placeholder_ssns,
  digits_only, drop_three, digits_are_placeholder, phone_is_placeholder, is_placeholder,
  extract_examples,
}

-- An address at one of the six domains.
abbrev pub IsFakeAddress : Text → Type 0
IsFakeAddress m =
    (domain : Text) × In domain (
      codes "@example.com"
      ∷ codes "@example.org"
      ∷ codes "@example.net"
      ∷ codes "@test.com"
      ∷ codes "@invalid"
      ∷ codes "@localhost"
      ∷ [])
    × ((user : Text) × (m ≡ user ++ domain))

-- One of the four numbers.
abbrev pub IsFakeSsn : Text → Type 0
IsFakeSsn m =
    In m
      (codes "000-00-0000" ∷ codes "111-11-1111" ∷ codes "123-45-6789" ∷ codes "987-65-4321" ∷ [])

-- The digits of a text.
pub digits_in : Text → Text
digits_in [] = []
digits_in (c ∷ s) = if leb 48 c && leb c 57 then c ∷ digits_in s else digits_in s

-- Seven digits from 555 on, or ten with 555 in front or behind the first three.
abbrev pub IsFakePhone : Text → Type 0
IsFakePhone d =
    ((rest : Text) × (d ≡ codes "555" ++ rest) × ((length rest ≡ 4) ⊎ (length rest ≡ 7)))
    ⊎ ((a : ℕ) × (b : ℕ) × (c : ℕ) × (rest : Text) × (d ≡ a ∷ b ∷ c ∷ (codes "555" ++ rest))
        × (length rest ≡ 4))

abbrev pub IsPlaceholder : Kind → Text → Type 0
IsPlaceholder email m = IsFakeAddress m
IsPlaceholder ssn m = IsFakeSsn m
IsPlaceholder phone m = IsFakePhone (digits_in m)

email_iff : (m : Text) → (email_is_placeholder m ≡ true) ↔ IsFakeAddress m
unfolding email_is_placeholder
email_iff m = (
  λ e.
      let (domain, i, q) = (any_iff (has_suffix m) placeholder_email_domains).0 e in
      (domain, i, (has_suffix_iff m domain).0 q),
  λ (domain, i, q).
      (any_iff (has_suffix m) placeholder_email_domains).1
        (domain, i, (has_suffix_iff m domain).1 q),
)

digits_only-digits_in : (s : Text) → digits_only s ≡ digits_in s
unfolding digits_only digits_in
digits_only-digits_in [] = refl
digits_only-digits_in (c ∷ s) =
    ap (λ z. if leb 48 c && leb c 57 then c ∷ z else z) (digits_only-digits_in s)

drop_three_lem :
    (d : Text) → 3 ≤ length d → (a : ℕ) × (b : ℕ) × (c : ℕ) × (d ≡ a ∷ b ∷ c ∷ drop_three d)
drop_three_lem [] h = absurd (omega arith)
drop_three_lem (a ∷ []) h = absurd (omega arith)
drop_three_lem (a ∷ b ∷ []) h = absurd (omega arith)
drop_three_lem (a ∷ b ∷ c ∷ s) h = (a, b, c, refl)

digits_iff : (d : Text) → (digits_are_placeholder d ≡ true) ↔ IsFakePhone d
unfolding digits_are_placeholder
digits_iff d = (fake, accepted)
  where
    ten :
        has_prefix d (codes "555") || has_prefix (drop_three d) (codes "555") ≡ true
        → length d ≡ 10
        → IsFakePhone d
    ten e n = elim (Bool-cases (has_prefix d (codes "555"))) [
      | inl c ↦
          let (r, q) = (has_prefix_iff d (codes "555")).0 c in
          inl (r, q, inr (omega (arith, ap length q, n)))
      | inr c ↦
          let (r, q) = (has_prefix_iff (drop_three d) (codes "555")).0 (rw c at e) in
          let (x, y, z, w) = drop_three_lem d (omega (arith, n)) in
          let p = w ∙ ap (λ s. x ∷ y ∷ z ∷ s) q in
          inr (x, y, z, r, p, omega (arith, ap length p, n))
    ]

    fake : digits_are_placeholder d ≡ true → IsFakePhone d
    fake e = elim (Bool-cases (length d == 7)) [
      | inl a ↦
          let n : length d ≡ 7 = ground (arith, a) in
          let (r, q) = (has_prefix_iff d (codes "555")).0 (rw a at e) in
          inl (r, q, inl (omega (arith, ap length q, n)))
      | inr a ↦ elim (Bool-cases (length d == 10)) [
        | inl b ↦ ten (rw (a, b) at e) (ground (arith, b))
        | inr b ↦ absurd (not-false refl (rw (a, b) at e))
      ]
    ]

    accepted : IsFakePhone d → digits_are_placeholder d ≡ true
    accepted (inl (r, q, inl n)) =
        let k : length d ≡ 7 = omega (arith, ap length q, n) in
        ground (arith, k, (has_prefix_iff d (codes "555")).1 (r, q))
    accepted (inl (r, q, inr n)) =
        let k : length d ≡ 10 = omega (arith, ap length q, n) in
        ground (arith, k, (has_prefix_iff d (codes "555")).1 (r, q))
    accepted (inr (x, y, z, r, q, n)) =
        let k : length d ≡ 10 = omega (arith, ap length q, n) in
        ground (arith, k, (has_prefix_iff (drop_three d) (codes "555")).1 (r, ap drop_three q))

pub is_placeholder_iff : (k : Kind) (m : Text) → (is_placeholder k m ≡ true) ↔ IsPlaceholder k m
unfolding phone_is_placeholder
is_placeholder_iff email m = email_iff m
is_placeholder_iff ssn m = member_iff m placeholder_ssns
is_placeholder_iff phone m =
    subst (λ z. (digits_are_placeholder z ≡ true) ↔ IsFakePhone (digits_in m))
      (sym (digits_only-digits_in m)) (digits_iff (digits_in m))

-- A value in the array at `examples`.
abbrev pub IsAmongExamples : Option Fields → Value → Type 0
IsAmongExamples o ex =
    (schema : Fields) × (arr : Items) × (o ≡ some schema)
    × (lookup (codes "examples") schema ≡ some (array arr))
    × In ex (to_list arr)

to_list_iff :
    (o : Option Value) (ex : Value)
    → In ex (elim o [
      | none ↦ []
      | some raw ↦ elim (as_array raw) [ none ↦ [] | some arr ↦ to_list arr ]
    ])
      ↔ ((arr : Items) × (o ≡ some (array arr)) × In ex (to_list arr))
to_list_iff none ex = (λ h. elim h [ ], λ (arr, e, i). absurd (cc))
to_list_iff (some (array vs)) ex =
    (λ h. (vs, refl, h), λ (arr, e, i). subst (λ (z : Items). In ex (to_list z)) (array_of e) i)
  where
    array_of : {us ws : Items} → some (array us) ≡ some (array ws) → ws ≡ us
    array_of e = cc
to_list_iff (some null) ex = (λ h. elim h [ ], λ (arr, e, i). absurd (cc))
to_list_iff (some (bool b)) ex = (λ h. elim h [ ], λ (arr, e, i). absurd (cc))
to_list_iff (some (number n)) ex = (λ h. elim h [ ], λ (arr, e, i). absurd (cc))
to_list_iff (some (string s)) ex = (λ h. elim h [ ], λ (arr, e, i). absurd (cc))
to_list_iff (some (object fs)) ex = (λ h. elim h [ ], λ (arr, e, i). absurd (cc))

pub extract_examples_iff :
    (o : Option Fields) (ex : Value) → In ex (extract_examples o) ↔ IsAmongExamples o ex
unfolding extract_examples
extract_examples_iff none ex = (λ h. elim h [ ], λ (schema, arr, e, _, _). absurd (cc))
extract_examples_iff (some schema) ex =
    let (f, g) = to_list_iff (lookup (codes "examples") schema) ex in
    (
      λ h. let (arr, e, i) = f h in (schema, arr, refl, e, i),
      λ (other, arr, p, e, i). let q : other ≡ schema = cc in g (arr, rw q at e, i),
    )
