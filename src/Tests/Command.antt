-- ===== src/Tests/Command.antt =====
-- The registry, the command and its outputs with two rules and two tools.
use mcpcheck.Prelude.{
  ◌≡◌, refl, ◌↔◌, true, false, List, [], ◌∷◌, ◌++◌, none, some, codes, ◌=ₜ◌, In, here, ascii_tables,
  trim_space, byte_len,
}
use mcpcheck.Mcpmodel.{Tool, ToolSet}
use mcpcheck.Registry.{Finding, Rule, ok, register, taken, tool_finding, run, report, all_rules}
use mcpcheck.Registry.Register.{IsWellFormed, register_all, register_all-IsWellFormed}
use mcpcheck.Rules.Description
use mcpcheck.Rules.SnakeCase
use mcpcheck.Output.Sarif.{read_results, build_sarif_results, kept_all, read-build_sarif_results}
use mcpcheck.Main.{Output, Flags, World, all_findings, analyze_all}
use mcpcheck.Main.ExitCodes.{IsOutputOf, IsClean, analyze_all-zero_iff}

abbrev naming : Rule
naming = SnakeCase.rule ascii_tables

abbrev cut : Tool
cut = record {
  name = codes "cutFile";
  description = codes "...";
  input_schema = none;
  source_file = codes "server.py";
  source_line = 7;
}

abbrev cut_set : ToolSet
cut_set = record { tools = cut ∷ []; source = codes "server.py" }

abbrev two_findings : List Finding
two_findings =
    tool_finding Description.rule.info cut (codes "b")
    ∷ tool_finding naming.info cut (codes "a")
    ∷ []

abbrev world : World
world = record { load = λ _. some cut_set; load_live = λ _. none; writes = λ _. true }

abbrev no_arguments : Flags
no_arguments = record { format = codes "text"; list_rules = false; live = []; args = [] }

nothing-IsWellFormed : IsWellFormed []
nothing-IsWellFormed = record { complete = tt; distinct = tt }

registered : register_all [] (Description.rule ∷ naming ∷ []) ≡ ok (Description.rule ∷ naming ∷ [])
unfolding register_all register taken Description.rule SnakeCase.rule ◌=ₜ◌
registered = refl

register_all_example :
    IsWellFormed (Description.rule ∷ naming ∷ [])
    × ((Description.rule ∷ naming ∷ []) ≡ [] ++ Description.rule ∷ naming ∷ [])
register_all_example =
    register_all-IsWellFormed [] (Description.rule ∷ naming ∷ []) nothing-IsWellFormed registered

sarif_example : read_results (build_sarif_results two_findings) ≡ kept_all two_findings
sarif_example = read-build_sarif_results two_findings

analyze_all_example :
    ((analyze_all (naming ∷ []) world (some cut_set) none (codes "text")).code ≡ 0) ↔ (
      (out : Output) × IsOutputOf
        (codes "text")
        (all_findings (naming ∷ []) (some cut_set) none)
        out
      × (world.writes out ≡ true)
      × IsClean (all_findings (naming ∷ []) (some cut_set) none))
analyze_all_example = analyze_all-zero_iff (naming ∷ []) world (some cut_set) none (codes "text")

cut_is_short :
    In
      (tool_finding Description.rule.info cut Description.short_message)
      (all_findings (Description.rule ∷ []) (some cut_set) none)
unfolding all_findings run Description.rule Description.check ◌=ₜ◌ report all_rules trim_space
    byte_len
cut_is_short = here refl
