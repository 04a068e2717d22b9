-- ===== src/Vfs/Listing.antt =====
-- `ReadDir`: which names it lists, and with which entries.
use mcpcheck.Prelude.{
  ◌≡◌, ◌≢◌, ◌↔◌, ◌⊎◌, refl, sym, ap, subst, ◌∙◌, inl, inr, Bool, true, false, List, [], ◌∷◌, ◌++◌,
  Option, none, some, Text, ◌=ₜ◌, text_eq_iff, has_prefix, has_prefix_iff, In, here, there, In-cons,
  In-sort, IsSorted, sort-IsSorted, StrictWeak, text_lt, text_lt-StrictWeak, member, sort,
  if◌then◌else◌, ◌==◌, ok, arith, Bool-cases, not-false, member-cons,
}
use mcpcheck.Vfs.{
  MemEntry, Files, PathError, child_of, add_child, children_from, dir_prefix, list_dir, list_error,
  read_dir,
}
use mcpcheck.Vfs.Paths.{first_name, behind, child_name, relative_child}

-- No separator.
abbrev pub IsName : Text → Type 0
IsName [] = Unit
IsName (c ∷ s) = (c ≢ b'/') × IsName s

-- A path of an immediate child of a directory, or one below that child.
abbrev pub IsChild : Text → Text → Text → Type 0
IsChild prefix name p =
    IsName name
    × (name ≢ [])
    × ((p ≡ prefix ++ name) ⊎ ((rest : Text) × (p ≡ prefix ++ (name ++ (b'/' ∷ rest)))))

behind_self : (s t : Text) → behind s (s ++ t) ≡ t
unfolding behind
behind_self [] t = refl
behind_self (c ∷ s) t = behind_self s t

first_name-IsName : (s : Text) → IsName (first_name s)
unfolding first_name
first_name-IsName [] = tt
first_name-IsName (c ∷ s) = elim (Bool-cases (c == b'/')) [
  | inl e ↦ rw e tt
  | inr e ↦ rw e (λ q. ground (arith, e, q), first_name-IsName s)
]

first_name-cases :
    (s : Text) → (s ≡ first_name s) ⊎ ((rest : Text) × (s ≡ first_name s ++ (b'/' ∷ rest)))
unfolding first_name
first_name-cases [] = inl refl
first_name-cases (c ∷ s) = elim (Bool-cases (c == b'/')) [
  | inl e ↦ rw e (inr (s, ap (λ z. z ∷ s) (ground (arith, e))))
  | inr e ↦ rw e (elim (first_name-cases s) [
    | inl q ↦ inl (ap (◌∷◌ c) q)
    | inr (rest, q) ↦ inr (rest, ap (◌∷◌ c) q)
  ])
]

first_name_whole : (n : Text) → IsName n → first_name n ≡ n
unfolding first_name
first_name_whole [] h = refl
first_name_whole (c ∷ n) h = elim (Bool-cases (c == b'/')) [
  | inl e ↦ absurd (h.0 (ground (arith, e)))
  | inr e ↦ rw e (ap (◌∷◌ c) (first_name_whole n h.1))
]

first_name_cut : (n rest : Text) → IsName n → first_name (n ++ (b'/' ∷ rest)) ≡ n
unfolding first_name
first_name_cut [] rest h = refl
first_name_cut (c ∷ n) rest h = elim (Bool-cases (c == b'/')) [
  | inl e ↦ absurd (h.0 (ground (arith, e)))
  | inr e ↦ rw e (ap (◌∷◌ c) (first_name_cut n rest h.1))
]

child_name-some : (s : Text) → s ≢ [] → child_name s ≡ some s
child_name-some [] h = absurd (h refl)
child_name-some (c ∷ s) h = refl

child_name-eq : (s n : Text) → child_name s ≡ some n → (s ≡ n) × (n ≢ [])
child_name-eq [] n h = absurd (cc)
child_name-eq (c ∷ s) n h = let q : c ∷ s ≡ n = ground (arith, h) in (q, λ e. cc)

relative_child-of :
    (prefix s n : Text) → first_name s ≡ n → n ≢ [] → relative_child (prefix ++ s) prefix ≡ some n
unfolding relative_child
relative_child-of prefix s n h d =
    ap (λ b. if b then child_name (first_name (behind prefix (prefix ++ s))) else none)
      ((has_prefix_iff (prefix ++ s) prefix).1 (s, refl))
    ∙ ap (λ z. child_name (first_name z)) (behind_self prefix s)
    ∙ ap child_name h
    ∙ child_name-some n d

pub relative_child_iff :
    (p prefix n : Text) → (relative_child p prefix ≡ some n) ↔ IsChild prefix n p
unfolding relative_child
relative_child_iff p prefix n = (
  λ h. elim (Bool-cases (has_prefix p prefix)) [
    | inr e ↦ let q : none ≡ some n = rw e at h in absurd (cc)
    | inl e ↦
        let (s, q) = (has_prefix_iff p prefix).0 e in
        let g : child_name (first_name (behind prefix p)) ≡ some n = rw e at h in
        let f : first_name s ≡ first_name (behind prefix p) =
          ap first_name (sym (behind_self prefix s) ∙ ap (behind prefix) (sym q)) in
        let (m, d) = child_name-eq (first_name (behind prefix p)) n g in
        (
          subst IsName (f ∙ m) (first_name-IsName s),
          d,
          elim (first_name-cases s) [
            | inl c ↦ inl (q ∙ ap (λ z. prefix ++ z) (c ∙ f ∙ m))
            | inr (rest, c) ↦
                inr (rest, q ∙ ap (λ z. prefix ++ z) (c ∙ ap (λ z. z ++ (b'/' ∷ rest)) (f ∙ m)))
          ],
        )
  ],
  λ (h, d, o). elim o [
    | inl e ↦
        ap (λ z. relative_child z prefix) e ∙ relative_child-of prefix n n (first_name_whole n h) d
    | inr (rest, e) ↦
        ap (λ z. relative_child z prefix) e
        ∙ relative_child-of prefix (n ++ (b'/' ∷ rest)) n (first_name_cut n rest h) d
  ],
)

-- An entry that the loop can take a name from.
abbrev pub Gives : Text → Text → Files → Text → MemEntry → Type 0
Gives c prefix m n e = (p : Text) × In (p, e) m × (child_of c prefix p ≡ some n)

module _ (c prefix : Text) where
  member-later :
      (n x : Text) (seen : List Text) → member n (x ∷ seen) ≡ false → member n seen ≡ false
  unfolding member
  member-later n x seen h = ground arith

  children_from-Gives :
      (n : Text) (e : MemEntry) (seen : List Text) (m : Files)
      → In (n, e) (children_from c prefix seen m)
      → (member n seen ≡ false) × Gives c prefix m n e
  unfolding children_from
  children_from-Gives n e seen [] h = elim h [ ]
  children_from-Gives n e seen ((p, f) ∷ m) h =
      step (child_of c prefix p) refl h (λ s k. children_from-Gives n e s m k)
    where
      step :
          (o : Option Text)
          → child_of c prefix p ≡ o
          → In (n, e) (add_child o seen f (λ s. children_from c prefix s m))
          → ((s : List Text)
              → In (n, e) (children_from c prefix s m)
              → (member n s ≡ false) × Gives c prefix m n e)
          → (member n seen ≡ false) × Gives c prefix ((p, f) ∷ m) n e
      step none q k ih = let (a, (r, i, g)) = ih seen k in (a, (r, there i, g))
      step (some name) q k ih = elim (Bool-cases (member name seen)) [
        | inl b ↦ let (a, (r, i, g)) = ih seen (rw b at k) in (a, (r, there i, g))
        | inr b ↦ elim (In-cons (rw b at k)) [
          | inl z ↦
              let y : n ≡ name = ground (arith, z) in
              let w : e ≡ f = ground (arith, z) in
              (ap (λ x. member x seen) y ∙ b, (p, here (ap (λ x. (p, x)) w), q ∙ ap some (sym y)))
          | inr z ↦
              let (a, (r, i, g)) = ih (name ∷ seen) z in
              (member-later n name seen a, (r, there i, g))
        ]
      ]

  Gives-children_from :
      (n : Text) (e : MemEntry) (seen : List Text) (m : Files)
      → Gives c prefix m n e
      → member n seen ≡ false
      → (f : MemEntry) × In (n, f) (children_from c prefix seen m)
  unfolding children_from
  Gives-children_from n e seen [] (p, i, g) h = elim i [ ]
  Gives-children_from n e seen ((q, d) ∷ m) (p, i, g) h =
      step (child_of c prefix q) refl (λ s k j. Gives-children_from n e s m (p, j, g) k)
    where
      step :
          (o : Option Text)
          → child_of c prefix q ≡ o
          → ((s : List Text)
              → member n s ≡ false
              → In (p, e) m
              → (f : MemEntry) × In (n, f) (children_from c prefix s m))
          → (f : MemEntry) × In (n, f) (add_child o seen d (λ s. children_from c prefix s m))
      step none z ih = elim (In-cons i) [
        | inl y ↦
            let x : none ≡ some n = sym z ∙ ap (child_of c prefix) (sym (ap (λ k. k.0) y)) ∙ g in
            absurd (cc)
        | inr y ↦ ih seen h y
      ]
      step (some name) z ih =
          let first : ◌≡◌ {A = Text × MemEntry} (p, e) (q, d) → (name =ₜ n) ≡ true = λ y.
            let x : some name ≡ some n =
              sym z ∙ ap (child_of c prefix) (sym (ap (λ k. k.0) y)) ∙ g in
            (text_eq_iff name n).1 (ground (arith, x)) in
          elim (Bool-cases (name =ₜ n)) [
            | inl a ↦
                let x : name ≡ n = (text_eq_iff name n).0 a in
                let b : member name seen ≡ false = ap (λ k. member k seen) x ∙ h in
                rw b (d, here (ap (λ k. (k, d)) (sym x)))
            | inr a ↦ elim (In-cons i) [
              | inl y ↦ absurd (not-false a (first y))
              | inr y ↦ elim (Bool-cases (member name seen)) [
                | inl b ↦ rw b (ih seen h y)
                | inr b ↦
                    let (f, j) =
                      ih (name ∷ seen)
                        (member-cons n name seen
                          ∙ ap (λ t. if t then true else member n seen) a
                          ∙ h)
                        y in
                    rw b (f, there j)
              ]
            ]
          ]

-- The order of `ReadDir`.
abbrev pub name_lt : Text × MemEntry → Text × MemEntry → Bool
name_lt a b = text_lt (a.0) (b.0)

name_lt-StrictWeak : StrictWeak name_lt
name_lt-StrictWeak = record {
  asym = λ x y h. text_lt-StrictWeak.asym x.0 y.0 h;
  negative_trans = λ x y z h k. text_lt-StrictWeak.negative_trans x.0 y.0 z.0 h k;
}

-- The entry at a path that is a child of a directory, or is below that child.
pub record Child (c prefix : Text) (m : Files) (n : Text) (e : MemEntry) : Type 0 where
  pub at : Text
  pub is_entry : In (at, e) m
  pub is_other : (at =ₜ c) ≡ false
  pub is_child : IsChild prefix n at

child_of-other :
    (c prefix p n : Text)
    → child_of c prefix p ≡ some n
    → ((p =ₜ c) ≡ false) × (relative_child p prefix ≡ some n)
unfolding child_of
child_of-other c prefix p n h = elim (Bool-cases (p =ₜ c)) [
  | inl e ↦ let q : none ≡ some n = rw e at h in absurd (cc)
  | inr e ↦ (e, rw e at h)
]

Child-child_of :
    {c prefix n : Text} {m : Files} {e : MemEntry}
    → (k : Child c prefix m n e) → child_of c prefix k.at ≡ some n
unfolding child_of
Child-child_of {c} {prefix} {n} k =
    ap (λ b. if b then none else relative_child k.at prefix) k.is_other
    ∙ (relative_child_iff k.at prefix n).1 k.is_child

module _ (clean : Text → Text) where
  listed_children :
      (path : Text) (m : Files) (entries : List (Text × MemEntry)) (o : Option PathError)
      → list_dir clean o (clean path) m ≡ ok entries
      → sort name_lt (children_from (clean path) (dir_prefix clean (clean path)) [] m) ≡ entries
  listed_children path m entries none h = ground (arith, h)
  listed_children path m entries (some e) h = absurd (cc)

  -- Where `ReadDir` succeeds its entries are sorted by name. Each has the name of a child of the directory,
  -- and what is stored at that child's path or at one below it; and each child's name is listed, also that
  -- of one of which only paths below it are stored.
  pub read_dir_lem :
      (path : Text) (m : Files) (entries : List (Text × MemEntry))
      → read_dir clean path m ≡ ok entries
      → IsSorted name_lt entries
        × ((n : Text) (e : MemEntry)
            → In (n, e) entries
            → Child (clean path) (dir_prefix clean (clean path)) m n e)
        × ((n : Text) (e : MemEntry)
            → Child (clean path) (dir_prefix clean (clean path)) m n e
            → (f : MemEntry) × In (n, f) entries)
  unfolding read_dir member
  read_dir_lem path m entries h =
      let c = clean path in
      let prefix = dir_prefix clean c in
      let q = listed_children path m entries (list_error path c m) h in
      (
        subst (IsSorted name_lt) q (sort-IsSorted name_lt name_lt-StrictWeak _),
        λ n e i.
            let j = (In-sort name_lt _).0 (subst (In (n, e)) (sym q) i) in
            let (_, (p, k, g)) = children_from-Gives c prefix n e [] m j in
            let (o, r) = child_of-other c prefix p n g in
            record {
              at = p;
              is_entry = k;
              is_other = o;
              is_child = (relative_child_iff p prefix n).0 r;
            },
        λ n e k.
            let (f, j) =
              Gives-children_from c prefix n e [] m (k.at, k.is_entry, Child-child_of k) refl in
            (f, subst (In (n, f)) q ((In-sort name_lt _).1 j)),
      )
