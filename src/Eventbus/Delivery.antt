-- ===== src/Eventbus/Delivery.antt =====
-- To whom `Sync.Publish` delivers an event, and in which order.
use mcpcheck.Prelude.{
  ℕ, ◌<◌, ◌≡◌, ◌≢◌, ◌↔◌, ◌⊎◌, refl, sym, ap, subst, ◌∙◌, inl, inr, List, [], ◌∷◌, ◌++◌, Option,
  none, some, All, In, here, there, In-cons, In-append, In-append_left, In-append_right, All-append,
  ltb, arith, Bool-cases,
}
use mathlib.Core.List.{reverse, reverse-append}
use mcpcheck.Eventbus.{
  Sync, sink, sort_from, sort_ids, ids_of, add_handler, handler_of, collect, publish,
}

-- From the greatest on.
abbrev IsFalling : List ℕ → Type 0
IsFalling [] = Unit
IsFalling (x ∷ xs) = All (λ y. y < x) xs × IsFalling xs

-- From the least on, none twice.
abbrev pub IsRising : List ℕ → Type 0
IsRising [] = Unit
IsRising (x ∷ xs) = All (λ y. x < y) xs × IsRising xs

-- No number stands twice.
abbrev pub AreUnique : List ℕ → Type 0
AreUnique [] = Unit
AreUnique (x ∷ xs) = (¬ (In x xs)) × AreUnique xs

All_of_In : (P : ℕ → Type 0) (xs : List ℕ) → ((y : ℕ) → In y xs → P y) → All P xs
All_of_In P [] h = tt
All_of_In P (x ∷ xs) h = (h x (here refl), All_of_In P xs (λ y k. h y (there k)))

In_of_All : (P : ℕ → Type 0) {y : ℕ} (xs : List ℕ) → All P xs → In y xs → P y
In_of_All P (x ∷ xs) h (here e) = subst P (sym e) h.0
In_of_All P (x ∷ xs) h (there k) = In_of_All P xs h.1 k
In_of_All P [] h k = elim k [ ]

All-sink : (n x : ℕ) (ys : List ℕ) → x < n → All (λ y. y < n) ys → All (λ y. y < n) (sink x ys)
unfolding sink
All-sink n x [] h k = (h, tt)
All-sink n x (y ∷ ys) h k = elim (Bool-cases (ltb x y)) [
  | inl e ↦ rw e (k.0, All-sink n x ys h k.1)
  | inr e ↦ rw e (h, k)
]

All_weaken : (m n : ℕ) (ys : List ℕ) → m < n → All (λ y. y < m) ys → All (λ y. y < n) ys
All_weaken m n [] h k = tt
All_weaken m n (y ∷ ys) h k = (omega (arith, k.0), All_weaken m n ys h k.1)

sink-IsFalling : (x : ℕ) (ys : List ℕ) → ¬ (In x ys) → IsFalling ys → IsFalling (sink x ys)
unfolding sink
sink-IsFalling x [] d h = (tt, tt)
sink-IsFalling x (y ∷ ys) d h = elim (Bool-cases (ltb x y)) [
  | inl e ↦
      rw e (All-sink y x ys (ground (arith, e)) h.0, sink-IsFalling x ys (λ k. d (there k)) h.1)
  | inr e ↦
      let n : x ≢ y = λ q. d (here q) in
      let l : y < x = ground (arith, e, n) in rw e ((l, All_weaken y x ys l h.0), h)
]

In-sink : {a : ℕ} (x : ℕ) (ys : List ℕ) → In a (sink x ys) ↔ In a (x ∷ ys)
unfolding sink
In-sink x [] = (λ h. h, λ h. h)
In-sink x (y ∷ ys) = elim (Bool-cases (ltb x y)) [
  | inr e ↦ rw e (λ h. h, λ h. h)
  | inl e ↦ rw e (
    λ h. elim (In-cons h) [
      | inl p ↦ there (here p)
      | inr k ↦ elim (In-cons ((In-sink x ys).0 k)) [ inl p ↦ here p | inr m ↦ there (there m) ]
    ],
    λ h. elim (In-cons h) [
      | inl p ↦ there ((In-sink x ys).1 (here p))
      | inr k ↦ elim (In-cons k) [ inl p ↦ here p | inr m ↦ there ((In-sink x ys).1 (there m)) ]
    ],
  )
]

reverse-cons {ℓ} : {A : Type ℓ} (x : A) (xs : List A) → reverse (x ∷ xs) ≡ reverse xs ++ (x ∷ [])
reverse-cons x xs = reverse-append (x ∷ []) xs

In-reverse {ℓ} : {A : Type ℓ} {a : A} (xs : List A) → In a (reverse xs) → In a xs
In-reverse [] h = h
In-reverse {a = a} (x ∷ xs) h =
    elim (In-append (reverse xs) (x ∷ []) (subst (In a) (reverse-cons x xs) h)) [
      | inl k ↦ there (In-reverse xs k)
      | inr k ↦ elim (In-cons k) [ inl p ↦ here p | inr m ↦ elim m [ ] ]
    ]

reverse-In {ℓ} : {A : Type ℓ} {a : A} (xs : List A) → In a xs → In a (reverse xs)
reverse-In {a = a} (x ∷ xs) h = subst (In a) (sym (reverse-cons x xs)) (elim (In-cons h) [
  | inl p ↦ In-append_right (reverse xs) (here p)
  | inr k ↦ In-append_left (x ∷ []) (reverse-In xs k)
])
reverse-In [] h = h

IsRising-snoc :
    (x : ℕ) (xs : List ℕ) → IsRising xs → ((y : ℕ) → In y xs → y < x) → IsRising (xs ++ (x ∷ []))
IsRising-snoc x [] r h = (tt, tt)
IsRising-snoc x (y ∷ ys) r h = (
  All-append (λ z. y < z) ys (x ∷ []) r.0 (h y (here refl), tt),
  IsRising-snoc x ys r.1 (λ z k. h z (there k)),
)

reverse-IsRising : (xs : List ℕ) → IsFalling xs → IsRising (reverse xs)
reverse-IsRising [] h = tt
reverse-IsRising (x ∷ xs) h = subst IsRising (sym (reverse-cons x xs)) (
    IsRising-snoc x (reverse xs) (reverse-IsRising xs h.1)
      (λ y k. In_of_All (λ z. z < x) xs h.0 (In-reverse xs k)))

sort_from-IsRising :
    (sorted xs : List ℕ)
    → IsFalling sorted
    → AreUnique xs
    → ((y : ℕ) → In y xs → ¬ (In y sorted))
    → IsRising (sort_from sorted xs)
unfolding sort_from
sort_from-IsRising sorted [] f u d = reverse-IsRising sorted f
sort_from-IsRising sorted (x ∷ xs) f u d =
    sort_from-IsRising (sink x sorted) xs (sink-IsFalling x sorted (d x (here refl)) f) u.1
      (λ y k m. elim (In-cons ((In-sink x sorted).0 m)) [
        | inl e ↦ u.0 (subst (λ z. In z xs) e k)
        | inr s ↦ d y (there k) s
      ])

In-sort_from : {a : ℕ} (sorted xs : List ℕ) → In a (sort_from sorted xs) ↔ (In a sorted ⊎ In a xs)
unfolding sort_from
In-sort_from sorted [] = (
  λ h. inl (In-reverse sorted h),
  λ h. elim h [ inl k ↦ reverse-In sorted k | inr k ↦ elim k [ ] ],
)
In-sort_from sorted (x ∷ xs) = (
  λ h. elim ((In-sort_from (sink x sorted) xs).0 h) [
    | inl k ↦ elim (In-cons ((In-sink x sorted).0 k)) [ inl e ↦ inr (here e) | inr m ↦ inl m ]
    | inr k ↦ inr (there k)
  ],
  λ h. (In-sort_from (sink x sorted) xs).1 (elim h [
    | inl k ↦ inl ((In-sink x sorted).1 (there k))
    | inr k ↦ elim (In-cons k) [ inl e ↦ inl ((In-sink x sorted).1 (here e)) | inr m ↦ inr m ]
  ]),
)

module _ {H : Type 0} where
  In-collect :
      (id : ℕ) (h : H) (ids : List ℕ) (hs : List (ℕ × H))
      → In (id, h) (collect ids hs)
      → In id ids × (handler_of id hs ≡ some h)
  unfolding collect
  In-collect id h [] hs k = elim k [ ]
  In-collect id h (i ∷ ids) hs k = step (handler_of i hs) refl k (In-collect id h ids hs)
    where
      step :
          (o : Option H)
          → handler_of i hs ≡ o
          → In (id, h) (add_handler i o (collect ids hs))
          → (In (id, h) (collect ids hs) → In id ids × (handler_of id hs ≡ some h))
          → In id (i ∷ ids) × (handler_of id hs ≡ some h)
      step none q k ih = let (a, b) = ih k in (there a, b)
      step (some g) q k ih = elim (In-cons k) [
        | inl e ↦
            let p : id ≡ i = ap (λ z. z.0) e in
            let r : h ≡ g = ap (λ z. z.1) e in
            (here p, ap (λ z. handler_of z hs) p ∙ q ∙ ap some (sym r))
        | inr m ↦ let (a, b) = ih m in (there a, b)
      ]

  collect-In :
      (id : ℕ) (h : H) (ids : List ℕ) (hs : List (ℕ × H))
      → In id ids
      → handler_of id hs ≡ some h
      → In (id, h) (collect ids hs)
  unfolding collect
  collect-In id h (i ∷ ids) hs (here e) q =
      subst (λ o. In (id, h) (add_handler i o (collect ids hs)))
        (sym (ap (λ z. handler_of z hs) (sym e) ∙ q)) (here (ap (λ z. (z, h)) e))
  collect-In id h (i ∷ ids) hs (there k) q = later (handler_of i hs) (collect-In id h ids hs k q)
    where
      later :
          (o : Option H)
          → In (id, h) (collect ids hs)
          → In (id, h) (add_handler i o (collect ids hs))
      later none m = m
      later (some g) m = there m
  collect-In id h [] hs k q = elim k [ ]

  collect-All :
      (P : ℕ → Type 0) (ids : List ℕ) (hs : List (ℕ × H))
      → All P ids
      → All P (ids_of (collect ids hs))
  unfolding collect ids_of
  collect-All P [] hs a = tt
  collect-All P (i ∷ ids) hs a = step (handler_of i hs) (collect-All P ids hs a.1)
    where
      step :
          (o : Option H)
          → All P (ids_of (collect ids hs))
          → All P (ids_of (add_handler i o (collect ids hs)))
      step none k = k
      step (some g) k = (a.0, k)

  collect-IsRising :
      (ids : List ℕ) (hs : List (ℕ × H)) → IsRising ids → IsRising (ids_of (collect ids hs))
  unfolding collect ids_of
  collect-IsRising [] hs r = tt
  collect-IsRising (i ∷ ids) hs r =
      step (handler_of i hs) (collect-All (λ y. i < y) ids hs r.0) (collect-IsRising ids hs r.1)
    where
      step :
          (o : Option H)
          → All (λ y. i < y) (ids_of (collect ids hs))
          → IsRising (ids_of (collect ids hs))
          → IsRising (ids_of (add_handler i o (collect ids hs)))
      step none a k = k
      step (some g) a k = (a, k)

  -- A bus: no identifier stands twice, and none is as great as the next one.
  pub record IsBus (b : Sync H) : Type 0 where
    pub unique : AreUnique (ids_of b.handlers)
    pub below : All (λ id. id < b.next_id) (ids_of b.handlers)

  -- Whatever the order of iteration, `Publish` calls handlers in ascending order of their identifiers, each
  -- once: those that were subscribed when it began and still are when it looks again.
  pub publish_lem :
      (b later : Sync H)
      → IsBus b
      → IsRising (ids_of (publish b later))
        × ((id : ℕ) (h : H)
            → In (id, h) (publish b later)
              ↔ (In id (ids_of b.handlers) × (handler_of id later.handlers ≡ some h)))
  unfolding publish sort_ids
  publish_lem b later v = (
    collect-IsRising _ later.handlers
        (sort_from-IsRising [] (ids_of b.handlers) tt v.unique (λ y k m. elim m [ ])),
    λ id h. (
      λ k.
          let (a, q) = In-collect id h _ later.handlers k in
          (elim ((In-sort_from [] (ids_of b.handlers)).0 a) [ inl m ↦ elim m [ ] | inr m ↦ m ], q),
      λ (a, q).
          collect-In id h _ later.handlers ((In-sort_from [] (ids_of b.handlers)).1 (inr a)) q,
    ),
  )
