-- ===== src/Rules/StaticVsLive/Laws.antt =====
-- What the comparison of the two intakes reports.
use mcpcheck.Prelude.{
  ℕ, ◌+◌, ◌≡◌, refl, sym, ap, ap₂, subst, ◌∙◌, ◌⊎◌, inl, inr, Bool, true, false, not, ◌&&◌, ◌||◌,
  List, [], ◌∷◌, ◌++◌, append-nil, none, some, Text, ◌=ₜ◌, text_eq_iff, text_lt, Tables, member,
  member-append, member-one, member-cons, member-nil, count, count-append, count-sort, count-keep,
  AreDistinct, AreDistinct-snoc, if◌then◌else◌, arith, Bool-cases,
}
use mcpcheck.Mcpmodel.{Tool, ToolSet}
use mcpcheck.Registry.{ComparisonContext, report_comparison, run_comparison}
use mcpcheck.Registry.Names.{tool_names, finding_names, finding_names-append}
use mcpcheck.Rules.StaticVsLive.{
  Index, names, find_tool, index_from, index_by_name, only_in, report_names, check_sets, check,
  rule, static_message, live_message,
}

names-snoc : (m : Index) (k : Text) (t : Tool) → names (m ++ (k, t) ∷ []) ≡ names m ++ k ∷ []
names-snoc [] k t = refl
names-snoc ((j, _) ∷ m) k t = ap (◌∷◌ j) (names-snoc m k t)

member-names-snoc :
    (n : Text) (m : Index) (k : Text) (t : Tool)
    → member n (names (m ++ (k, t) ∷ [])) ≡ (member n (names m) || k =ₜ n)
member-names-snoc n m k t =
    ap (member n) (names-snoc m k t)
    ∙ member-append n (names m) (k ∷ [])
    ∙ ap (◌||◌ (member n (names m))) (member-one n k)

-- Each entry is under its tool's name.
abbrev pub WellNamed : Index → Type 0
WellNamed [] = Unit
WellNamed ((k, t) ∷ m) = (t.name ≡ k) × WellNamed m

WellNamed-snoc : (m : Index) (t : Tool) → WellNamed m → WellNamed (m ++ (t.name, t) ∷ [])
WellNamed-snoc [] t w = (refl, tt)
WellNamed-snoc ((k, s) ∷ m) t w = (w.0, WellNamed-snoc m t w.1)

record IsIndex (tools : List Tool) (before out : Index) : Type 0 where
  covers :
      (n : Text) → member n (names out) ≡ (member n (names before) || member n (tool_names tools))
  distinct : AreDistinct (names out)
  well_named : WellNamed out

index_from-IsIndex :
    (ts : List Tool) (out : Index)
    → AreDistinct (names out)
    → WellNamed out
    → IsIndex ts out (index_from ts out)
unfolding index_from
index_from-IsIndex [] out d w = record {
  covers = λ n. ground (arith, member-nil n);
  distinct = d;
  well_named = w;
}
index_from-IsIndex (t ∷ ts) out d w = elim (Bool-cases (member t.name (names out))) [
  | inl e ↦ rw e (
      let r = index_from-IsIndex ts out d w in
      record {
        covers = λ n.
            ground (arith, r.covers n, member-cons n t.name (tool_names ts), text_eq_iff t.name n);
        distinct = r.distinct;
        well_named = r.well_named;
      })
  | inr e ↦ rw e (
      let r =
        index_from-IsIndex ts (out ++ (t.name, t) ∷ [])
          (subst AreDistinct (sym (names-snoc out t.name t))
            (AreDistinct-snoc (names out) t.name d e))
          (WellNamed-snoc out t w) in
      record {
        covers = λ n. ground (
          arith,
          r.covers n,
          member-cons n t.name (tool_names ts),
          member-names-snoc n out t.name t,
        );
        distinct = r.distinct;
        well_named = r.well_named;
      })
]

find_tool_cases :
    (n : Text) (m : Index)
    → WellNamed m
    → ((find_tool n m ≡ none) × (member n (names m) ≡ false))
      ⊎ ((t : Tool) × (find_tool n m ≡ some t) × (t.name ≡ n) × (member n (names m) ≡ true))
unfolding find_tool member
find_tool_cases n [] w = inl (refl, refl)
find_tool_cases n ((k, t) ∷ m) w = elim (Bool-cases (k =ₜ n)) [
  | inl e ↦ inr (t, rw e, w.0 ∙ (text_eq_iff k n).0 e, rw e)
  | inr e ↦ rw e (find_tool_cases n m w.1)
]

report-names :
    (n : Text) (t : Tool) (message : Text) (c : ComparisonContext)
    → count n (finding_names (report_comparison t message c).findings)
      ≡ count n (finding_names c.findings) + (if t.name =ₜ n then 1 else 0)
unfolding report_comparison
report-names n t message c =
    rw (finding_names-append c.findings)
      (rw (count-append n (finding_names c.findings)) (omega arith))

report_names_lem :
    (n : Text) (message : Text → Text) (m : Index) (ns : List Text) (c : ComparisonContext)
    → WellNamed m
    → count n (finding_names (report_names message m ns c).findings)
      ≡ count n (finding_names c.findings) + (if member n (names m) then count n ns else 0)
unfolding report_names
report_names_lem n message m [] c w = ground arith
report_names_lem n message m (x ∷ ns) c w = elim (find_tool_cases x m w) [
  | inl (e, h) ↦
      rw (e, report_names) ground (arith, report_names_lem n message m ns c w, text_eq_iff x n)
  | inr (t, e, p, h) ↦
      rw (e, report_names) ground
        (
          arith,
          report_names_lem n message m ns (report_comparison t (message x) c) w,
          report-names n t (message x) c,
          text_eq_iff x n,
          p,
        )
]

index_by_name-IsIndex : (tools : List Tool) → IsIndex tools [] (index_by_name tools)
unfolding index_by_name
index_by_name-IsIndex tools = index_from-IsIndex tools [] tt tt

abbrev pub advertises : Text → List Tool → Bool
advertises n tools = member n (tool_names tools)

member-index_by_name :
    (n : Text) (tools : List Tool) → member n (names (index_by_name tools)) ≡ advertises n tools
member-index_by_name n tools = ground (arith, (index_by_name-IsIndex tools).covers n, member-nil n)

count-only_in :
    (n : Text) (a b : List Tool)
    → count n (only_in (index_by_name a) (index_by_name b))
      ≡ (if advertises n a && not (advertises n b) then 1 else 0)
unfolding only_in
count-only_in n a b =
    count-sort n text_lt _
    ∙ count-keep n (λ x. not (member x (names (index_by_name b)))) (names (index_by_name a))
        (index_by_name-IsIndex a).distinct
    ∙ ap₂ (λ x y. if x && not y then 1 else 0) (member-index_by_name n a) (member-index_by_name n b)

check_sets-count :
    (u : Tables) (static live : ToolSet) (n : Text) (c : ComparisonContext)
    → count n (finding_names (check_sets u (some static) (some live) c).findings)
      ≡ count n (finding_names c.findings)
        + (if advertises n static.tools
            then (if advertises n live.tools then 0 else 1)
            else (if advertises n live.tools then 1 else 0))
unfolding check_sets
check_sets-count u static live n c =
    let s = index_by_name static.tools in
    let l = index_by_name live.tools in
    ground (
      arith,
      report_names_lem n (live_message u) l (only_in l s)
          (report_names (static_message u) s (only_in s l) c)
          (index_by_name-IsIndex live.tools).well_named,
      report_names_lem n (static_message u) s (only_in s l) c
          (index_by_name-IsIndex static.tools).well_named,
      count-only_in n live.tools static.tools,
      count-only_in n static.tools live.tools,
      member-index_by_name n static.tools,
      member-index_by_name n live.tools,
    )

add-left_zero : (n : ℕ) → 0 + n ≡ n
add-left_zero n = omega arith

-- The findings for two tool sets name each tool that exactly one of them advertises once, and no other,
-- however often a name is advertised.
pub drift_findings :
    (u : Tables) (static live : ToolSet) (n : Text)
    → count n (finding_names (run_comparison (rule u ∷ []) (some static) (some live))) ≡ (
        if advertises n static.tools
        then (if advertises n live.tools then 0 else 1)
        else (if advertises n live.tools then 1 else 0))
unfolding run_comparison rule check
drift_findings u static live n =
    ap (λ fs. count n (finding_names fs)) (append-nil _)
    ∙ check_sets-count u static live n _
    ∙ add-left_zero _
