-- ===== src/Registry.antt =====
-- internal/v2/v2.go: findings, the contexts that a rule reports to, the registry and the dispatch.
-- A pointer to a context is a value that the callback returns changed; `panic` is an error.
pub mod Register
pub mod Dispatch
pub mod Single
pub mod Names
use mcpcheck.Prelude.{
  ℕ, Bool, true, false, ◌&&◌, ◌||◌, List, [], ◌∷◌, ◌++◌, Option, none, some, Text, codes, ◌=ₜ◌,
  if◌then◌else◌,
}
use mcpcheck.Mcpmodel.{Tool, ToolSet}

-- A string: one of the three constants, or any other.
pub data Severity : Type 0 where
  sev_error sev_warning sev_info : Severity
  other_severity : Text → Severity

pub data FixLevel : Type 0 where
  fix_none fix_cosmetic fix_idiomatic fix_semantic : FixLevel

pub data Category : Type 0 where
  cat_agreement cat_spec cat_safety cat_examples : Category

pub record Finding : Type 0 where
  pub rule_id : Text
  pub severity : Severity
  pub category : Category
  pub message : Text
  pub tool_name : Text
  pub source_file : Text
  pub source_line : ℕ

-- The fields of `Rule` that are data. A context's `rule` pointer is read for these alone.
pub record Meta : Type 0 where
  pub id : Text
  pub category : Category
  pub severity : Severity
  pub description : Text
  pub fix : FixLevel

pub record Context : Type 0 where
  pub tool : Tool
  pub findings : List Finding
  pub rule : Meta

pub record ProjectContext : Type 0 where
  pub tool_set : ToolSet
  pub findings : List Finding
  pub rule : Meta

pub record ComparisonContext : Type 0 where
  pub static : Option ToolSet
  pub live : Option ToolSet
  pub findings : List Finding
  pub rule : Meta

-- The finding that both `Report` and `ReportTool` append for a tool.
abbrev pub tool_finding : Meta → Tool → Text → Finding
tool_finding r t message = record {
  rule_id = r.id;
  severity = r.severity;
  category = r.category;
  message = message;
  tool_name = t.name;
  source_file = t.source_file;
  source_line = t.source_line;
}

-- `(*Context).Report`
unfoldable pub report : Text → Context → Context
report message c = record c { findings = c.findings ++ tool_finding c.rule c.tool message ∷ [] }

-- `(*ProjectContext).ReportTool`
unfoldable pub report_project : Tool → Text → ProjectContext → ProjectContext
report_project t message pc = record pc {
  findings = pc.findings ++ tool_finding pc.rule t message ∷ [];
}

-- `(*ComparisonContext).Report`
unfoldable pub report_set : Text → ComparisonContext → ComparisonContext
report_set message cc' = record cc' {
  findings =
      cc'.findings
      ++ record {
        rule_id = cc'.rule.id;
        severity = cc'.rule.severity;
        category = cc'.rule.category;
        message = message;
        tool_name = [];
        source_file = [];
        source_line = 0;
      }
        ∷ [];
}

-- `(*ComparisonContext).ReportTool`
unfoldable pub report_comparison : Tool → Text → ComparisonContext → ComparisonContext
report_comparison t message cc' = record cc' {
  findings = cc'.findings ++ tool_finding cc'.rule t message ∷ [];
}

pub record Rule : Type 0 where
  pub info : Meta
  pub implementation : Option (Context → Context)
  pub project_implementation : Option (ProjectContext → ProjectContext)
  pub comparison_implementation : Option (ComparisonContext → ComparisonContext)

-- The panics of `Register`.
pub data Panic : Type 0 where
  nil_rule empty_id : Panic
  no_callback duplicate_id : Text → Panic

pub data Result {ℓ} (A : Type ℓ) : Type ℓ where
  panics : Panic → Result A
  ok : A → Result A

infixl 5 ◌>>=◌
abbrev pub ◌>>=◌ {ℓ κ} : {A : Type ℓ} {B : Type κ} → Result A → (A → Result B) → Result B
outcome >>= continue = elim outcome [ panics why ↦ panics why | ok value ↦ continue value ]

abbrev pub is_some {ℓ} : {A : Type ℓ} → Option A → Bool
is_some none = false
is_some (some _) = true

abbrev pub has_callback : Rule → Bool
has_callback r =
    is_some r.implementation
    || is_some r.project_implementation
    || is_some r.comparison_implementation

-- The loop of `Register` over the rules that are there.
unfoldable pub taken : Text → List Rule → Bool
taken id [] = false
taken id (existing ∷ rs) = if existing.info.id =ₜ id then true else taken id rs

-- `Register`. The first argument is the package's `registry`; a nil pointer is `none`.
unfoldable pub register : List Rule → Option Rule → Result (List Rule)
register registry none = panics nil_rule
register registry (some r) =
    if r.info.id =ₜ []
    then panics empty_id
    else if has_callback r
    then (if taken r.info.id registry
        then panics (duplicate_id r.info.id)
        else ok (registry ++ r ∷ []))
    else panics (no_callback r.info.id)

-- `All` returns a copy, which is the list itself.
unfoldable pub all_rules : List Rule → List Rule
all_rules registry = registry

abbrev pub run_rule : Tool → Rule → List Finding
run_rule t r = elim r.implementation [
  | none ↦ []
  | some f ↦ (f (record { tool = t; findings = []; rule = r.info })).findings
]

-- `Run`
unfoldable pub run : List Rule → Tool → List Finding
run [] t = []
run (r ∷ rs) t = run_rule t r ++ run rs t

abbrev pub run_project_rule : ToolSet → Rule → List Finding
run_project_rule set r = elim r.project_implementation [
  | none ↦ []
  | some f ↦ (f (record { tool_set = set; findings = []; rule = r.info })).findings
]

-- `RunProject`
unfoldable pub run_project : List Rule → ToolSet → List Finding
run_project [] set = []
run_project (r ∷ rs) set = run_project_rule set r ++ run_project rs set

abbrev pub run_comparison_rule : Option ToolSet → Option ToolSet → Rule → List Finding
run_comparison_rule static live r = elim r.comparison_implementation [
  | none ↦ []
  | some f ↦ (f (record { static = static; live = live; findings = []; rule = r.info })).findings
]

-- `RunComparison`
unfoldable pub run_comparison : List Rule → Option ToolSet → Option ToolSet → List Finding
run_comparison [] static live = []
run_comparison (r ∷ rs) static live =
    run_comparison_rule static live r ++ run_comparison rs static live
