-- ===== src/Registry/Register.antt =====
-- `Register` and the registry that a sequence of calls builds.
use mcpcheck.Prelude.{
  ◌≡◌, ◌≢◌, refl, sym, ap, ◌∙◌, ◌↔◌, ◌⊎◌, inl, inr, true, false, List, [], ◌∷◌, ◌++◌, append_assoc,
  append-nil, some, Text, ◌=ₜ◌, text_eq_iff, text_eq_refl, not-false, All, All-append, In, In-cons,
  In-append, here, there, Bool-cases,
}
use mcpcheck.Registry.{
  Rule, empty_id, no_callback, duplicate_id, Result, ok, panics, has_callback, ◌>>=◌, taken,
  register,
}

-- The identifiers of the rules, in the order of registration.
abbrev pub ids : List Rule → List Text
ids [] = []
ids (r ∷ rs) = r.info.id ∷ ids rs

pub taken_iff : (id : Text) (rs : List Rule) → (taken id rs ≡ true) ↔ In id (ids rs)
unfolding taken
taken_iff id [] = (λ e. cc, λ h. elim h [ ])
taken_iff id (r ∷ rs) = elim (Bool-cases (r.info.id =ₜ id)) [
  | inl e ↦ (λ _. here (sym ((text_eq_iff r.info.id id).0 e)), λ _. rw e)
  | inr e ↦ rw e (
    λ h. there ((taken_iff id rs).0 h),
    λ h. elim (In-cons h) [
      | inl p ↦ absurd (not-false e (rw p (text_eq_refl r.info.id)))
      | inr k ↦ (taken_iff id rs).1 k
    ],
  )
]

-- A rule that `Register` accepts by itself.
abbrev pub IsComplete : Rule → Type 0
IsComplete r = (r.info.id ≢ []) × (has_callback r ≡ true)

-- No later identifier is that of an earlier one.
abbrev pub Fresh : List Text → Type 0
Fresh [] = Unit
Fresh (id ∷ rest) = (¬ In id rest) × Fresh rest

pub record IsWellFormed (rs : List Rule) : Type 0 where
  pub complete : All IsComplete rs
  pub distinct : Fresh (ids rs)

Fresh-snoc : (xs : List Text) (id : Text) → Fresh xs → ¬ In id xs → Fresh (xs ++ id ∷ [])
Fresh-snoc [] id f n = ((λ h. elim h [ ]), tt)
Fresh-snoc (x ∷ xs) id f n = (
  λ h. elim (In-append xs (id ∷ []) h) [
    | inl k ↦ f.0 k
    | inr k ↦ elim (In-cons k) [ inl e ↦ n (here (sym e)) | inr m ↦ elim m [ ] ]
  ],
  Fresh-snoc xs id f.1 (λ h. n (there h)),
)

ids-append : (rs qs : List Rule) → ids (rs ++ qs) ≡ ids rs ++ ids qs
ids-append [] qs = refl
ids-append (r ∷ rs) qs = ap (◌∷◌ r.info.id) (ids-append rs qs)

-- `Register` answers each non-nil rule in exactly one of four ways, tested in this order: an empty
-- identifier, no callback and an identifier that is registered already each panic with that reason;
-- any other rule is appended to the registry.
pub register_cases :
    (rs : List Rule) (r : Rule)
    → ((r.info.id ≡ []) × (register rs (some r) ≡ panics empty_id))
      ⊎ ((r.info.id ≢ [])
          × (has_callback r ≡ false)
          × (register rs (some r) ≡ panics (no_callback r.info.id)))
      ⊎ (IsComplete r
          × In r.info.id (ids rs)
          × (register rs (some r) ≡ panics (duplicate_id r.info.id)))
      ⊎ (IsComplete r × (¬ In r.info.id (ids rs)) × (register rs (some r) ≡ ok (rs ++ r ∷ [])))
unfolding register
register_cases rs r = elim (Bool-cases (r.info.id =ₜ [])) [
  | inl e ↦ inl ((text_eq_iff r.info.id []).0 e, rw e)
  | inr e ↦
      let named : r.info.id ≢ [] = λ p. not-false e ((text_eq_iff r.info.id []).1 p) in
      elim (Bool-cases (has_callback r)) [
        | inr c ↦ inr (inl (named, c, rw (e, c)))
        | inl c ↦ elim (Bool-cases (taken r.info.id rs)) [
          | inl t ↦ inr (inr (inl ((named, c), (taken_iff _ rs).0 t, rw (e, c, t))))
          | inr t ↦
              inr (inr (inr ((named, c), λ h. not-false t ((taken_iff _ rs).1 h), rw (e, c, t))))
        ]
      ]
]

register-eq-ok :
    (rs : List Rule) (r : Rule) {qs : List Rule}
    → register rs (some r) ≡ ok qs
    → IsComplete r × (¬ In r.info.id (ids rs)) × (qs ≡ rs ++ r ∷ [])
register-eq-ok rs r e = elim (register_cases rs r) [
  | inl (_, p) ↦ absurd (cc)
  | inr (inl (_, _, p)) ↦ absurd (cc)
  | inr (inr (inl (_, _, p))) ↦ absurd (cc)
  | inr (inr (inr (c, n, p))) ↦ (c, n, cc)
]

ok-injective {ℓ} : {A : Type ℓ} {a b : A} → ok a ≡ ok b → a ≡ b
ok-injective e = cc

-- A chain that returns has a first part that returns.
>>=-eq-ok {ℓ κ} :
    {B : Type κ} {A : Type ℓ} {b : B} (first : Result A) (continue : A → Result B)
    → (first >>= continue) ≡ ok b
    → (value : A) × (first ≡ ok value) × (continue value ≡ ok b)
>>=-eq-ok (panics why) continue returned = cc
>>=-eq-ok (ok value) continue returned = (value, refl, returned)

-- The `init` functions call `Register` in turn; a panic ends the program.
unfoldable pub register_all : List Rule → List Rule → Result (List Rule)
register_all rs [] = ok rs
register_all rs (q ∷ qs) = do rs' ← register rs (some q); register_all rs' qs

register-IsWellFormed :
    (rs : List Rule) (r : Rule) {qs : List Rule}
    → IsWellFormed rs
    → register rs (some r) ≡ ok qs
    → IsWellFormed qs
register-IsWellFormed rs r w e =
    let (c, n, p) = register-eq-ok rs r e in
    rw p (record {
      complete = All-append IsComplete rs (r ∷ []) w.complete (c, tt);
      distinct = rw (ids-append rs (r ∷ [])) (Fresh-snoc (ids rs) r.info.id w.distinct n);
    })

-- If the calls of `Register` for a list of rules all return, the registry is the one before
-- followed by those rules in order, each rule has a non-empty identifier and a callback, and no two
-- rules share an identifier.
pub register_all-IsWellFormed :
    (rs qs : List Rule) {all : List Rule}
    → IsWellFormed rs
    → register_all rs qs ≡ ok all
    → IsWellFormed all × (all ≡ rs ++ qs)
unfolding register_all
register_all-IsWellFormed rs [] w e =
    let p : _ = ok-injective e in (rw (← p) w, sym p ∙ sym (append-nil rs))
register_all-IsWellFormed rs (q ∷ qs) w e =
    let (rs', here_ok, rest) = >>=-eq-ok (register rs (some q)) _ e in
    let (w', p) = register_all-IsWellFormed rs' qs (register-IsWellFormed rs q w here_ok) rest in
    (w', p ∙ ap (λ l. l ++ qs) (register-eq-ok rs q here_ok).2 ∙ append_assoc rs (q ∷ []) qs)
