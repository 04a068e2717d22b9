-- ===== src/Rules/Collision/Laws.antt =====
-- What the rule reports for a set of tools.
use mcpcheck.Prelude.{
  ℕ, suc, ◌+◌, ◌*◌, ◌≡◌, refl, ap, subst, ◌∙◌, ◌↔◌, ◌≢◌, ◌≤◌, inl, inr, Bool, true, false, not,
  ◌&&◌, List, [], ◌∷◌, ◌++◌, append-nil, Text, ◌=ₜ◌, text_eq_iff, text_eq_refl, text_lt, Tables,
  member, member-nil, sort, length, length-append, ltb, count, count-append, count-sort,
  AreDistinct, All, All-append, if◌then◌else◌, arith, Bool-cases, not-false,
}
use mcpcheck.Mcpmodel.{Tool, ToolSet}
use mcpcheck.Registry.{Finding, ProjectContext, report_project, run_project}
use mcpcheck.Registry.Names.{tool_names, finding_names, finding_names-append}
use mcpcheck.Rules.Collision.{
  Place, Groups, group, add_place, group_from, by_name, collisions, report_places,
  report_collisions, check, rule, others, collision_message,
}

abbrev pub group_names : Groups → List Text
group_names [] = []
group_names ((k, _) ∷ m) = k ∷ group_names m

group-add_place :
    (n name : Text) (p : Place) (m : Groups)
    → group n (add_place name p m) ≡ (if name =ₜ n then group n m ++ p ∷ [] else group n m)
unfolding group add_place
group-add_place n name p [] = ground arith
group-add_place n name p ((k, ps) ∷ m) =
    ground
      (arith, group-add_place n name p m, text_eq_iff k name, text_eq_iff k n, text_eq_iff name n)

member-add_place :
    (n name : Text) (p : Place) (m : Groups)
    → member n (group_names (add_place name p m))
      ≡ (if name =ₜ n then true else member n (group_names m))
unfolding add_place member
member-add_place n name p [] = refl
member-add_place n name p ((k, ps) ∷ m) =
    ground
      (arith, member-add_place n name p m, text_eq_iff k name, text_eq_iff k n, text_eq_iff name n)

AreDistinct-add_place :
    (name : Text) (p : Place) (m : Groups)
    → AreDistinct (group_names m)
    → AreDistinct (group_names (add_place name p m))
unfolding add_place
AreDistinct-add_place name p [] d = (member-nil name, tt)
AreDistinct-add_place name p ((k, ps) ∷ m) d = elim (Bool-cases (k =ₜ name)) [
  | inl e ↦ rw e d
  | inr e ↦ rw e (
    ground (arith, member-add_place k name p m, text_eq_iff k name, text_eq_iff name k),
    AreDistinct-add_place name p m d.1,
  )
]

-- The places of the tools that have a name.
abbrev HasName : Text → Place → Type 0
HasName n (i, t) = t.name ≡ n

record IsGrouped (tools : List Tool) (before m : Groups) : Type 0 where
  sizes : (n : Text) → length (group n m) ≡ length (group n before) + count n (tool_names tools)
  named : (n : Text) → All (HasName n) (group n m)
  distinct : AreDistinct (group_names m)

named_step :
    (t : Tool) (i : ℕ) (m : Groups)
    → ((n : Text) → All (HasName n) (group n m))
    → (n : Text) → All (HasName n) (group n (add_place t.name (i, t) m))
named_step t i m h n = elim (Bool-cases (t.name =ₜ n)) [
  | inl e ↦ rw (group-add_place n t.name (i, t) m) (
      rw e
        (All-append (HasName n) (group n m) ((i, t) ∷ []) (h n) ((text_eq_iff t.name n).0 e, tt)))
  | inr e ↦ rw (group-add_place n t.name (i, t) m) (rw e (h n))
]

group_from-IsGrouped :
    (i : ℕ) (ts : List Tool) (m : Groups)
    → ((n : Text) → All (HasName n) (group n m))
    → AreDistinct (group_names m)
    → IsGrouped ts m (group_from i ts m)
unfolding group_from
group_from-IsGrouped i [] m h d = record { sizes = λ n. omega arith; named = h; distinct = d }
group_from-IsGrouped i (t ∷ ts) m h d =
    let r =
      group_from-IsGrouped (suc i) ts (add_place t.name (i, t) m) (named_step t i m h)
        (AreDistinct-add_place t.name (i, t) m d) in
    record {
      sizes = λ n. ground (
        arith,
        r.sizes n,
        group-add_place n t.name (i, t) m,
        length-append (group n m) ((i, t) ∷ []),
      );
      named = r.named;
      distinct = r.distinct;
    }

by_name-IsGrouped : (tools : List Tool) → IsGrouped tools [] (by_name tools)
unfolding by_name group
by_name-IsGrouped tools = group_from-IsGrouped 0 tools [] (λ n. tt) tt

-- A name that is a collision.
abbrev pub collides : Text → ℕ → Bool
collides n k = not (n =ₜ []) && ltb 1 k

absent-group : (n : Text) (m : Groups) → member n (group_names m) ≡ false → group n m ≡ []
unfolding group member
absent-group n [] h = refl
absent-group n ((k, ps) ∷ m) h = ground (arith, absent-group n m)

absent-collisions :
    (n : Text) (m : Groups) → member n (group_names m) ≡ false → count n (collisions m) ≡ 0
unfolding collisions member
absent-collisions n [] h = refl
absent-collisions n ((k, ps) ∷ m) h = ground (arith, absent-collisions n m)

count-collisions :
    (n : Text) (m : Groups)
    → AreDistinct (group_names m)
    → count n (collisions m) ≡ (if collides n (length (group n m)) then 1 else 0)
unfolding collisions group
count-collisions n [] d = ground arith
count-collisions n ((k, ps) ∷ m) d = elim (Bool-cases (k =ₜ n)) [
  | inl e ↦
      let q : k ≡ n = (text_eq_iff k n).0 e in
      let absent : member n (group_names m) ≡ false =
        subst (λ z. member z (group_names m) ≡ false) q d.0 in
      ground (arith, q, ap (λ z. z =ₜ []) q, absent-collisions n m absent)
  | inr e ↦ ground (arith, count-collisions n m d.1)
]

report_project-names :
    (n : Text) (t : Tool) (message : Text) (pc : ProjectContext)
    → count n (finding_names (report_project t message pc).findings)
      ≡ count n (finding_names pc.findings) + (if t.name =ₜ n then 1 else 0)
unfolding report_project
report_project-names n t message pc =
    rw (finding_names-append pc.findings)
      (rw (count-append n (finding_names pc.findings)) (omega arith))

report_places_lem :
    (u : Tables) (n k : Text) (all ps : List Place) (pc : ProjectContext)
    → All (HasName k) ps
    → count n (finding_names (report_places u k all ps pc).findings)
      ≡ count n (finding_names pc.findings) + (if k =ₜ n then length ps else 0)
unfolding report_places
report_places_lem u n k all [] pc h = ground arith
report_places_lem u n k all ((i, t) ∷ ps) pc h =
    let message = collision_message u k (sort text_lt (others i all)) in
    ground (
      arith,
      report_places_lem u n k all ps (report_project t message pc) h.1,
      report_project-names n t message pc,
      ap (λ z. z =ₜ n) h.0,
    )

report_collisions_lem :
    (u : Tables) (n : Text) (m : Groups) (ns : List Text) (pc : ProjectContext)
    → ((k : Text) → All (HasName k) (group k m))
    → count n (finding_names (report_collisions u m ns pc).findings)
      ≡ count n (finding_names pc.findings) + count n ns * length (group n m)
unfolding report_collisions
report_collisions_lem u n m [] pc h = omega arith
report_collisions_lem u n m (k ∷ ns) pc h = elim (Bool-cases (k =ₜ n)) [
  | inl e ↦
      let q : k ≡ n = (text_eq_iff k n).0 e in
      omega (
        arith,
        report_collisions_lem u n m ns (report_places u k (group k m) (group k m) pc) h,
        first pc
            ∙ ap (λ b. count n (finding_names pc.findings) + (if b then length (group k m) else 0))
                e,
        ap (λ z. length (group z m)) q,
        ap (λ b. (if b then 1 else 0) * length (group n m)) e,
        expand,
      )
  | inr e ↦ omega (
    arith,
    report_collisions_lem u n m ns (report_places u k (group k m) (group k m) pc) h,
    first pc
        ∙ ap (λ b. count n (finding_names pc.findings) + (if b then length (group k m) else 0)) e,
    ap (λ b. (if b then 1 else 0) * length (group n m)) e,
    expand,
  )
]
  where
    first :
        (c : ProjectContext)
        → count n (finding_names (report_places u k (group k m) (group k m) c).findings)
          ≡ count n (finding_names c.findings) + (if k =ₜ n then length (group k m) else 0)
    first c = report_places_lem u n k (group k m) (group k m) c (h k)

    expand :
        count n (k ∷ ns) * length (group n m)
        ≡ (if k =ₜ n then 1 else 0) * length (group n m) + count n ns * length (group n m)
    expand = omega arith

check-count :
    (u : Tables) (n : Text) (pc : ProjectContext)
    → count n (finding_names (check u pc).findings)
      ≡ count n (finding_names pc.findings)
        + (let k = count n (tool_names pc.tool_set.tools) in if collides n k then k else 0)
unfolding check group
check-count u n pc =
    let g = by_name-IsGrouped pc.tool_set.tools in
    let m = by_name pc.tool_set.tools in
    ground (
      arith,
      report_collisions_lem u n m (sort text_lt (collisions m)) pc g.named,
      count-sort n text_lt (collisions m),
      count-collisions n m g.distinct,
      g.sizes n,
    )

add-left_zero : (n : ℕ) → 0 + n ≡ n
add-left_zero n = omega arith

-- For each name the rule makes as many findings as tools have it, where the name is not empty and at least
-- two tools have it, and none otherwise.
pub collision_findings :
    (u : Tables) (set : ToolSet) (n : Text)
    → count n (finding_names (run_project (rule u ∷ []) set))
      ≡ (let k = count n (tool_names set.tools) in if collides n k then k else 0)
unfolding run_project rule
collision_findings u set n =
    ap (λ fs. count n (finding_names fs)) (append-nil _) ∙ check-count u n _ ∙ add-left_zero _

count_first : (x : Finding) (xs : List Finding) → count x.tool_name (finding_names (x ∷ xs)) ≢ 0
count_first x xs e = ground (arith, text_eq_refl x.tool_name)

-- The rule is silent exactly where no name but the empty one is that of two tools.
pub collision_silent_iff :
    (u : Tables) (set : ToolSet)
    → (run_project (rule u ∷ []) set ≡ [])
      ↔ ((n : Text) → n ≢ [] → count n (tool_names set.tools) ≤ 1)
collision_silent_iff u set = (
  λ e n ne. ground (
    arith,
    collision_findings u set n,
    ap (λ fs. count n (finding_names fs)) e,
    text_eq_iff n [],
  ),
  λ h. no_findings (run_project (rule u ∷ []) set) (λ n. quiet n h),
)
  where
    no_findings : (fs : List Finding) → ((n : Text) → count n (finding_names fs) ≡ 0) → fs ≡ []
    no_findings [] k = refl
    no_findings (f ∷ fs) k = absurd (count_first f fs (k f.tool_name))

    quiet :
        (n : Text)
        → ((k : Text) → k ≢ [] → count k (tool_names set.tools) ≤ 1)
        → count n (finding_names (run_project (rule u ∷ []) set)) ≡ 0
    quiet n h = elim (Bool-cases (n =ₜ [])) [
      | inl e ↦ ground (arith, collision_findings u set n)
      | inr e ↦
          ground
            (arith, collision_findings u set n, h n (λ p. not-false e ((text_eq_iff n []).1 p)))
    ]
