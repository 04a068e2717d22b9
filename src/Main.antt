-- ===== src/Main.antt =====
-- cmd/mcpcheck/main.go: the command's control flow and its exit code. What the scanner loads and whether
-- standard output takes what is written are parameters; the flags are read already.
pub mod ExitCodes
pub mod Findings
use mcpcheck.Prelude.{
  words_of, ℕ, suc, ◌+◌, ◌≡◌, Bool, true, false, not, ◌&&◌, ◌||◌, List, [], ◌∷◌, ◌++◌, Option, none,
  some, Text, codes, ◌=ₜ◌, length, any, ltb, ◌==◌, if◌then◌else◌,
}
use mcpcheck.Mcpmodel.{Tool, ToolSet}
use mcpcheck.Registry.{
  Severity, sev_error, sev_warning, sev_info, other_severity, Finding, Rule, all_rules, run,
  run_project, run_comparison,
}
use mcpcheck.Output.Ordering.{text_order, rule_order}
use mcpcheck.Output.Sarif.{SarifResult, build_sarif_results}

-- What is handed to one of the writers.
pub data Output : Type 0 where
  text_lines : List Finding → Output
  json_findings : List Finding → Output
  sarif_results : List SarifResult → Output
  rules_text : List Rule → Output
  rules_json : List Rule → Output

pub record Flags : Type 0 where
  pub format : Text
  pub list_rules : Bool
  pub live : Text
  pub args : List Text

-- `load` is `scanner.Load`, `load_live` is `scanner.LoadLive` under the deadline; `none` is an error. `writes`
-- tells whether writing an output succeeds.
pub record World : Type 0 where
  pub load : Text → Option ToolSet
  pub load_live : List Text → Option ToolSet
  pub writes : Output → Bool

-- How the process ends: its exit code and what it has written to standard output.
pub record Exit : Type 0 where
  pub code : ℕ
  pub written : Option Output

abbrev pub run_tools : List Rule → List Tool → List Finding
run_tools rules [] = []
run_tools rules (t ∷ ts) = run rules t ++ run_tools rules ts

-- One round of the loop over the two sets in `analyzeAll`.
abbrev pub run_set : List Rule → Option ToolSet → List Finding
run_set rules none = []
run_set rules (some set) = run_tools rules set.tools ++ run_project rules set

abbrev pub compare_sets : List Rule → Option ToolSet → Option ToolSet → List Finding
compare_sets rules none live = []
compare_sets rules (some set) none = []
compare_sets rules (some set) (some other) = run_comparison rules (some set) (some other)

-- The `findings` of `analyzeAll`.
unfoldable pub all_findings : List Rule → Option ToolSet → Option ToolSet → List Finding
all_findings registry static live =
    let rules = all_rules registry in
    run_set rules static ++ (run_set rules live ++ compare_sets rules static live)

-- The `switch` on the format.
unfoldable pub select_output : Text → List Finding → Option Output
select_output format findings =
    if format =ₜ codes "text"
    then some (text_lines (text_order findings))
    else if format =ₜ codes "json"
    then some (json_findings findings)
    else if format =ₜ codes "sarif"
    then some (sarif_results (build_sarif_results findings))
    else none

abbrev pub is_error_severity : Finding → Bool
is_error_severity f = go f.severity
  where
    go : Severity → Bool
    go sev_error = true
    go sev_warning = false
    go sev_info = false
    go (other_severity _) = false

abbrev pub failed : Exit
failed = record { code = 1; written = none }

-- A write that fails may have written part of the output, which is not told.
abbrev pub write_out : World → Option Output → ℕ → Exit
write_out w none code = failed
write_out w (some o) code = if w.writes o then record { code = code; written = some o } else failed

-- `analyzeAll`, with the `os.Exit(1)` of its last loop and of its caller on an error.
unfoldable pub analyze_all : List Rule → World → Option ToolSet → Option ToolSet → Text → Exit
analyze_all registry w static live format =
    let findings = all_findings registry static live in
    write_out w (select_output format findings) (if any is_error_severity findings then 1 else 0)

-- `writeRules`
unfoldable pub write_rules : List Rule → World → Text → Exit
write_rules registry w format =
    let rules = all_rules registry in
    if format =ₜ codes "text"
    then write_out w (some (rules_text (rule_order rules))) 0
    else if format =ₜ codes "json"
    then write_out w (some (rules_json (rule_order rules))) 0
    else failed

abbrev pub usage_error : Exit
usage_error = record { code = 2; written = none }

-- An intake that is asked for or not: no set if it is not, `none` if it fails.
abbrev pub intake : (Text → Option ToolSet) → Option Text → Option (Option ToolSet)
intake load none = some none
intake load (some source) = elim (load source) [ none ↦ none | some set ↦ some (some set) ]

-- `loadLiveCmd`, by the words of the command.
abbrev pub load_argv : World → List Text → Option ToolSet
load_argv w [] = none
load_argv w (part ∷ parts) = w.load_live (part ∷ parts)

unfoldable pub load_live_cmd : World → Text → Option ToolSet
load_live_cmd w live = load_argv w (words_of live)

-- `main` behind the two intakes; where the first fails the second is not made.
pub analyze_loaded :
    List Rule → World → Text → Option (Option ToolSet) → Option (Option ToolSet) → Exit
analyze_loaded registry w format none live = failed
analyze_loaded registry w format (some static) none = failed
analyze_loaded registry w format (some static) (some live) =
    analyze_all registry w static live format

-- The part of `main` that loads and analyzes.
unfoldable pub load_and_analyze : List Rule → World → Text → Option Text → Option Text → Exit
unfolding analyze_loaded
load_and_analyze registry w format path live =
    analyze_loaded registry w format (intake w.load path) (intake (load_live_cmd w) live)

abbrev pub live_of : Text → Option Text
live_of [] = none
live_of (c ∷ s) = some (c ∷ s)

-- `main` behind the flags; the second argument list is `flag.Args()`.
unfoldable pub dispatch : List Rule → World → Text → Option Text → List Text → Exit
unfolding load_and_analyze
dispatch registry w format none [] = usage_error
dispatch registry w format live (a ∷ b ∷ rest) = usage_error
dispatch registry w format (some command) [] =
    load_and_analyze registry w format none (some command)
dispatch registry w format live (path ∷ []) = load_and_analyze registry w format (some path) live

unfoldable pub main : List Rule → World → Flags → Exit
unfolding dispatch
main registry w flags =
    if flags.list_rules
    then write_rules registry w flags.format
    else dispatch registry w flags.format (live_of flags.live) flags.args
