-- ===== src/Rules/StaticVsLive.antt =====
-- internal/rules/static_vs_live.go: the tools found in the source and those of the live server are to agree.
pub mod Laws
use mcpcheck.Prelude.{
  ℕ, ◌+◌, ◌≡◌, ◌≢◌, refl, sym, ap, ap₂, ◌∙◌, ◌↔◌, ◌⊎◌, inl, inr, Bool, true, false, not, ◌&&◌, ◌||◌,
  List, [], ◌∷◌, ◌++◌, append_assoc, Option, none, some, Text, codes, ◌=ₜ◌, text_eq_iff,
  text_eq_refl, text_lt, Tables, member, keep, sort, count, count-append, count-sort, count-keep,
  AreDistinct, AreDistinct-snoc, quoted, if◌then◌else◌, arith, Bool-cases, not-false,
}
use mcpcheck.Mcpmodel.{Tool, ToolSet}
use mcpcheck.Registry.{
  sev_warning, fix_none, cat_spec, Finding, Meta, ComparisonContext, tool_finding,
  report_comparison, Rule, run_comparison,
}

-- The map of `indexByName`; an entry holds the tool that its index denotes.
abbrev pub Index : Type 0
Index = List (Text × Tool)

abbrev pub names : Index → List Text
names [] = []
names ((k, _) ∷ m) = k ∷ names m

unfoldable pub find_tool : Text → Index → Option Tool
find_tool n [] = none
find_tool n ((k, t) ∷ m) = if k =ₜ n then some t else find_tool n m

-- The loop of `indexByName`.
pub index_from : List Tool → Index → Index
index_from [] out = out
index_from (t ∷ ts) out =
    index_from ts (if member t.name (names out) then out else out ++ (t.name, t) ∷ [])

unfoldable pub index_by_name : List Tool → Index
unfolding index_from
index_by_name tools = index_from tools []

-- The names of one index that the other lacks, sorted.
unfoldable pub only_in : Index → Index → List Text
only_in one other = sort text_lt (keep (λ name. not (member name (names other))) (names one))

-- A loop over such names: each is reported at its tool.
unfoldable pub report_names :
    (Text → Text) → Index → List Text → ComparisonContext → ComparisonContext
report_names message index [] c = c
report_names message index (name ∷ rest) c = elim (find_tool name index) [
  | none ↦ report_names message index rest c
  | some t ↦ report_names message index rest (report_comparison t (message name) c)
]

module _ (u : Tables) where
  abbrev pub static_message : Text → Text
  static_message name =
      codes "tool "
      ++ (quoted u name
          ++ codes
              " appears in static intake but the live server does not advertise it; possible conditional registration or build-time gating")

  abbrev pub live_message : Text → Text
  live_message name =
      codes "tool "
      ++ (quoted u name
          ++ codes
              " is registered at runtime but absent from the static intake; likely dynamic registration the static analysis missed")

  pub check_sets : Option ToolSet → Option ToolSet → ComparisonContext → ComparisonContext
  check_sets none live c = c
  check_sets (some static) none c = c
  check_sets (some static) (some live) c =
      let static_by_name = index_by_name static.tools in
      let live_by_name = index_by_name live.tools in
      report_names live_message live_by_name (only_in live_by_name static_by_name)
        (report_names static_message static_by_name (only_in static_by_name live_by_name) c)

  -- The callback of the rule.
  unfoldable pub check : ComparisonContext → ComparisonContext
  unfolding check_sets
  check c = check_sets c.static c.live c

  unfoldable pub rule : Rule
  rule = record {
    info = record {
      id = codes "tool-static-vs-live-mismatch";
      category = cat_spec;
      severity = sev_warning;
      description =
          codes
            "Tools advertised by the static intake should match the tools the live server registers at runtime; drift here indicates dynamic registration that the static analysis can't see.";
      fix = fix_none;
    };
    implementation = none;
    project_implementation = none;
    comparison_implementation = some check;
  }
