-- ===== src/Scanner/Walks.antt =====
-- What the walks of LoadPythonDir and LoadTypeScriptDir find.
use mcpcheck.Prelude.{
  ◌≡◌, ◌↔◌, refl, sym, ap, subst, ◌∙◌, inl, inr, Bool, true, false, List, [], ◌++◌, Text, In,
  In-append, In-append_left, In-append_right, Result, ok, err, bind_result, arith, Bool-cases,
}
use mcpcheck.Mcpmodel.{Tool}
use mcpcheck.Scanner.Files.{
  Node, file, dir, link, dead_link, Nodes, nil, node, Error, walk_failed, is_dir, join_path,
  visit_file, visit_dir, walk, walk_entries,
}

-- What stands at a path below a directory, through directories that are not skipped.
pub data Below (clean : Text → Text) (skips : Text → Bool)
    : Text → Nodes → Text → Node → Type 0 where
  entry :
      {path at : Text} {entries rest : Nodes} {name : Text} {n : Node}
      → entries ≡ node name n rest
      → at ≡ join_path clean path name
      → Below clean skips path entries at n
  later :
      {path at : Text} {entries rest : Nodes} {name : Text} {n m : Node}
      → entries ≡ node name m rest
      → Below clean skips path rest at n
      → Below clean skips path entries at n
  inside :
      {path at : Text} {entries rest within : Nodes} {name : Text} {n : Node}
      → entries ≡ node name (dir true within) rest
      → skips name ≡ false
      → Below clean skips (join_path clean path name) within at n
      → Below clean skips path entries at n

bind_result-ok :
    {E A B : Type 0} (r : Result E A) (f : A → Result E B) (b : B)
    → bind_result r f ≡ ok b
    → (a : A) × (r ≡ ok a) × (f a ≡ ok b)
bind_result-ok (ok a) f b h = (a, refl, h)
bind_result-ok (err e) f b h = absurd (cc)

module _ (clean : Text → Text) (skips : Text → Bool) (wants : Text → Bool)
    (loads : Text → Node → Result Error (List Tool)) where
  -- A file that is read, with a tool that is found in it.
  pub record Loaded (path : Text) (n : Node) (t : Tool) : Type 0 where
    pub is_file : is_dir n ≡ false
    pub wanted : wants path ≡ true
    pub tools : List Tool
    pub loaded : loads path n ≡ ok tools
    pub found : In t tools

  abbrev pub BelowLoaded : Text → Nodes → Tool → Type 0
  BelowLoaded path entries t =
      (at : Text) × (n : Node) × Below clean skips path entries at n × Loaded at n t

  -- What a walk from a node can find.
  abbrev pub Found : Text → Text → Node → Tool → Type 0
  Found path name (dir true entries) t = (skips name ≡ false) × BelowLoaded path entries t
  Found path name (dir false entries) t = ⊥
  Found path name (file content) t = Loaded path (file content) t
  Found path name (link target) t = Loaded path (link target) t
  Found path name dead_link t = Loaded path dead_link t

  visit_file-Loaded :
      (path : Text) (n : Node) (ts : List Tool) (t : Tool)
      → is_dir n ≡ false
      → visit_file clean skips wants loads path n ≡ ok ts
      → In t ts
      → Loaded path n t
  visit_file-Loaded path n ts t d h k = elim (Bool-cases (wants path)) [
    | inl e ↦ record { is_file = d; wanted = e; tools = ts; loaded = rw e at h; found = k }
    | inr e ↦
        let q : ok [] ≡ ok ts = rw e at h in
        let p : [] ≡ ts = ground (arith, q) in absurd (elim (subst (In t) (sym p) k) [ ])
  ]

  Loaded-visit_file :
      (path : Text) (n : Node) (ts : List Tool) (t : Tool)
      → visit_file clean skips wants loads path n ≡ ok ts
      → Loaded path n t
      → In t ts
  Loaded-visit_file path n ts t h l =
      let q : loads path n ≡ ok ts = rw (l.wanted) at h in
      let p : l.tools ≡ ts = ground (arith, q, l.loaded) in subst (In t) p l.found

  Found-BelowLoaded :
      (path name : Text) (n : Node) (rest : Nodes) (t : Tool)
      → Found (join_path clean path name) name n t
      → BelowLoaded path (node name n rest) t
  Found-BelowLoaded path name (dir true entries) rest t f =
      let (s, (at, x, b, l)) = f in (at, x, inside refl s b, l)
  Found-BelowLoaded path name (dir false entries) rest t f = absurd f
  Found-BelowLoaded path name (file content) rest t f = (_, file content, entry refl refl, f)
  Found-BelowLoaded path name (link target) rest t f = (_, link target, entry refl refl, f)
  Found-BelowLoaded path name dead_link rest t f = (_, dead_link, entry refl refl, f)

  -- The parts of a walk over entries that succeeds.
  walk_entries-ok :
      (path name : Text) (n : Node) (rest : Nodes) (ts : List Tool)
      → walk_entries clean skips wants loads path (node name n rest) ≡ ok ts
      → (us vs : List Tool) × (walk clean skips wants loads (join_path clean path name) name n
          ≡ ok us)
        × (walk_entries clean skips wants loads path rest ≡ ok vs)
        × (ts ≡ us ++ vs)
  unfolding walk_entries
  walk_entries-ok path name n rest ts h =
      let (us, a, h') = bind_result-ok _ _ ts h in
      let (vs, b, e) = bind_result-ok _ _ ts h' in (us, vs, a, b, ground (arith, e))

  visit_dir-ok :
      (path name : Text) (within : Result Error (List Tool)) (ts : List Tool)
      → skips name ≡ false
      → visit_dir clean skips wants loads path name true within ≡ ok ts
      → within ≡ ok ts
  visit_dir-ok path name within ts s h = rw s at h

  BelowLoaded-later :
      (path name : Text) (n : Node) (rest : Nodes) (t : Tool)
      → BelowLoaded path rest t
      → BelowLoaded path (node name n rest) t
  BelowLoaded-later path name n rest t b = let (at, x, c, l) = b in (at, x, later refl c, l)

  mutual
    unfolding walk walk_entries

    walk-Found :
        (path name : Text) (n : Node) (ts : List Tool) (t : Tool)
        → walk clean skips wants loads path name n ≡ ok ts
        → In t ts
        → Found path name n t
    walk-Found path name (dir true entries) ts t h k = elim (Bool-cases (skips name)) [
      | inl e ↦
          let q : ok [] ≡ ok ts = rw e at h in
          let p : [] ≡ ts = ground (arith, q) in absurd (elim (subst (In t) (sym p) k) [ ])
      | inr e ↦ (e, walk_entries-Found path entries ts t (visit_dir-ok path name _ ts e h) k)
    ]
    walk-Found path name (dir false entries) ts t h k = elim (Bool-cases (skips name)) [
      | inl e ↦
          let q : ok [] ≡ ok ts = rw e at h in
          let p : [] ≡ ts = ground (arith, q) in absurd (elim (subst (In t) (sym p) k) [ ])
      | inr e ↦ let q : err (walk_failed path) ≡ ok ts = rw e at h in absurd (cc)
    ]
    walk-Found path name (file content) ts t h k = visit_file-Loaded path _ ts t refl h k
    walk-Found path name (link target) ts t h k = visit_file-Loaded path _ ts t refl h k
    walk-Found path name dead_link ts t h k = visit_file-Loaded path _ ts t refl h k

    walk_entries-Found :
        (path : Text) (entries : Nodes) (ts : List Tool) (t : Tool)
        → walk_entries clean skips wants loads path entries ≡ ok ts
        → In t ts
        → BelowLoaded path entries t
    walk_entries-Found path nil ts t h k =
        let p : [] ≡ ts = ground (arith, h) in absurd (elim (subst (In t) (sym p) k) [ ])
    walk_entries-Found path (node name n rest) ts t h k =
        let (us, vs, a, b, e) = walk_entries-ok path name n rest ts h in
        elim (In-append us vs (subst (In t) e k)) [
          | inl l ↦
              Found-BelowLoaded path name n rest t
                (walk-Found (join_path clean path name) name n us t a l)
          | inr r ↦ BelowLoaded-later path name n rest t (walk_entries-Found path rest vs t b r)
        ]

  Loaded-walk :
      (path name : Text) (n : Node) (ts : List Tool) (t : Tool)
      → walk clean skips wants loads path name n ≡ ok ts
      → Loaded path n t
      → In t ts
  unfolding walk
  Loaded-walk path name (dir r entries) ts t h l = absurd (cc (l.is_file))
  Loaded-walk path name (file content) ts t h l = Loaded-visit_file path _ ts t h l
  Loaded-walk path name (link target) ts t h l = Loaded-visit_file path _ ts t h l
  Loaded-walk path name dead_link ts t h l = Loaded-visit_file path _ ts t h l

  walk_entries-In :
      {path at : Text} {entries : Nodes} {n : Node} (ts : List Tool) (t : Tool)
      → Below clean skips path entries at n
      → walk_entries clean skips wants loads path entries ≡ ok ts
      → Loaded at n t
      → In t ts
  unfolding walk
  walk_entries-In {path} {at} ts t (entry {rest = rest} {name = name} {n = n} e p) h l =
      let (us, vs, a, b, q) =
        walk_entries-ok path name n rest ts
          (ap (walk_entries clean skips wants loads path) (sym e) ∙ h) in
      subst (In t) (sym q) (
        In-append_left vs
          (Loaded-walk (join_path clean path name) name n us t a (subst (λ z. Loaded z n t) p l)))
  walk_entries-In {path} ts t (later {rest = rest} {name = name} {m = m} e c) h l =
      let (us, vs, a, b, q) =
        walk_entries-ok path name m rest ts
          (ap (walk_entries clean skips wants loads path) (sym e) ∙ h) in
      subst (In t) (sym q) (In-append_right us (walk_entries-In vs t c b l))
  walk_entries-In {path} ts t (inside {rest = rest} {within = within} {name = name} e s c) h l =
      let (us, vs, a, b, q) =
        walk_entries-ok path name (dir true within) rest ts
          (ap (walk_entries clean skips wants loads path) (sym e) ∙ h) in
      let d = visit_dir-ok (join_path clean path name) name _ us s a in
      subst (In t) (sym q) (In-append_left vs (walk_entries-In us t c d l))

  -- Where the walk from a directory that is not skipped succeeds, a tool is among those returned exactly if
  -- it is among those read from a file with a wanted path that stands below the directory, through
  -- directories of which none is skipped.
  pub walk_iff :
      (path name : Text) (entries : Nodes) (ts : List Tool)
      → skips name ≡ false
      → walk clean skips wants loads path name (dir true entries) ≡ ok ts
      → (t : Tool) → In t ts ↔ BelowLoaded path entries t
  unfolding walk
  walk_iff path name entries ts s h t = (
    λ k. (walk-Found path name (dir true entries) ts t h k).1,
    λ (at, n, b, l). walk_entries-In ts t b (visit_dir-ok path name _ ts s h) l,
  )
