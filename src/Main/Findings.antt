-- ===== src/Main/Findings.antt =====
-- The findings of a whole run: each set's own ones, then those of the comparison.
use mcpcheck.Prelude.{
  ◌≡◌, refl, sym, ap, ◌∙◌, inl, inr, List, [], ◌∷◌, ◌++◌, append_assoc, Option, none, some, In,
  In-append, In-append_left, In-append_right,
}
use mcpcheck.Mcpmodel.{Tool, ToolSet}
use mcpcheck.Registry.{
  Finding, Rule, all_rules, run, run_project, run_comparison, run_project_rule, run_comparison_rule,
}
use mcpcheck.Registry.Dispatch.{run-append}
use mcpcheck.Main.{run_tools, run_set, compare_sets, all_findings}

run_project-append :
    (rs qs : List Rule) (set : ToolSet)
    → run_project (rs ++ qs) set ≡ run_project rs set ++ run_project qs set
unfolding run_project
run_project-append [] qs set = refl
run_project-append (r ∷ rs) qs set =
    ap (◌++◌ (run_project_rule set r)) (run_project-append rs qs set)
    ∙ sym (append_assoc (run_project_rule set r) (run_project rs set) (run_project qs set))

run_comparison-append :
    (rs qs : List Rule) (a b : Option ToolSet)
    → run_comparison (rs ++ qs) a b ≡ run_comparison rs a b ++ run_comparison qs a b
unfolding run_comparison
run_comparison-append [] qs a b = refl
run_comparison-append (r ∷ rs) qs a b =
    ap (◌++◌ (run_comparison_rule a b r)) (run_comparison-append rs qs a b)
    ∙ sym (append_assoc (run_comparison_rule a b r) (run_comparison rs a b) (run_comparison qs a b))

run_tools-more :
    (rs qs : List Rule) (ts : List Tool) {x : Finding}
    → In x (run_tools rs ts)
    → In x (run_tools (rs ++ qs) ts)
run_tools-more rs qs [] h = h
run_tools-more rs qs (t ∷ ts) h = elim (In-append (run rs t) (run_tools rs ts) h) [
  | inl k ↦
      In-append_left {xs = run (rs ++ qs) t} (run_tools (rs ++ qs) ts)
        (rw (run-append rs qs t) (In-append_left (run qs t) k))
  | inr k ↦ In-append_right (run (rs ++ qs) t) (run_tools-more rs qs ts k)
]

run_set-more :
    (rs qs : List Rule) (set : Option ToolSet) {x : Finding}
    → In x (run_set rs set)
    → In x (run_set (rs ++ qs) set)
run_set-more rs qs none h = h
run_set-more rs qs (some set) h = elim (In-append (run_tools rs set.tools) (run_project rs set) h) [
  | inl k ↦ In-append_left _ (run_tools-more rs qs set.tools k)
  | inr k ↦
      In-append_right (run_tools (rs ++ qs) set.tools)
        (rw (run_project-append rs qs set) (In-append_left (run_project qs set) k))
]

compare_sets-more :
    (rs qs : List Rule) (a b : Option ToolSet) {x : Finding}
    → In x (compare_sets rs a b)
    → In x (compare_sets (rs ++ qs) a b)
compare_sets-more rs qs none b h = elim h [ ]
compare_sets-more rs qs (some a) none h = elim h [ ]
compare_sets-more rs qs (some a) (some b) h =
    rw (run_comparison-append rs qs (some a) (some b))
      (In-append_left (run_comparison qs (some a) (some b)) h)

-- Each finding of an analysis with some rules is a finding of the analysis with those rules and any further
-- ones behind them.
pub all_findings-more_rules :
    (rs qs : List Rule) (static live : Option ToolSet) {x : Finding}
    → In x (all_findings rs static live)
    → In x (all_findings (rs ++ qs) static live)
unfolding all_findings all_rules
all_findings-more_rules rs qs static live h = elim (In-append (run_set rs static) _ h) [
  | inl k ↦ In-append_left _ (run_set-more rs qs static k)
  | inr k ↦ In-append_right (run_set (rs ++ qs) static) (elim (In-append (run_set rs live) _ k) [
    | inl m ↦ In-append_left _ (run_set-more rs qs live m)
    | inr m ↦ In-append_right (run_set (rs ++ qs) live) (compare_sets-more rs qs static live m)
  ])
]
