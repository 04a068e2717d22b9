-- ===== src/Registry/Dispatch.antt =====
-- `Run`, `RunProject` and `RunComparison`: what the findings of a run can be.
use mcpcheck.Prelude.{
  ◌≡◌, refl, sym, ap, ◌∙◌, inl, inr, List, [], ◌∷◌, ◌++◌, append_assoc, append-nil, some, Text, All,
  In, here, there, In-append, In-cons, Option-cases,
}
use mcpcheck.Mcpmodel.{Tool}
use mcpcheck.Registry.{Finding, Meta, Context, tool_finding, report, Rule, run_rule, run}

-- A callback of a rule in another package changes its context by `Report` alone, since the fields
-- that it would have to write are private: it reports some messages, in order.
abbrev pub report_each : List Text → Context → Context
report_each [] c = c
report_each (m ∷ ms) c = report_each ms (report m c)

pub record OnlyReports (f : Context → Context) : Type 0 where
  pub messages : Tool → List Text
  pub reports : (c : Context) → f c ≡ report_each (messages c.tool) c

abbrev pub IsReporter : Rule → Type 0
IsReporter r = (f : Context → Context) → r.implementation ≡ some f → OnlyReports f

abbrev pub tool_findings : Meta → Tool → List Text → List Finding
tool_findings r t [] = []
tool_findings r t (m ∷ ms) = tool_finding r t m ∷ tool_findings r t ms

pub findings-report_each :
    (ms : List Text) (c : Context)
    → (report_each ms c).findings ≡ c.findings ++ tool_findings c.rule c.tool ms
unfolding report
findings-report_each [] c = sym (append-nil c.findings)
findings-report_each (m ∷ ms) c =
    findings-report_each ms (report m c)
    ∙ append_assoc c.findings (tool_finding c.rule c.tool m ∷ []) _

In-tool_findings :
    {x : Finding} (r : Meta) (t : Tool) (ms : List Text)
    → In x (tool_findings r t ms)
    → (m : Text) × In m ms × (x ≡ tool_finding r t m)
In-tool_findings r t (m ∷ ms) h = elim (In-cons h) [
  | inl e ↦ (m, here refl, e)
  | inr k ↦ let (n, i, e) = In-tool_findings r t ms k in (n, there i, e)
]
In-tool_findings r t [] h = elim h [ ]

run_rule-eq :
    (r : Rule) (rep : IsReporter r) (t : Tool)
    → (ms : List Text) × (run_rule t r ≡ tool_findings r.info t ms)
run_rule-eq r rep t = elim (Option-cases r.implementation) [
  | inl e ↦ ([], rw e)
  | inr (f, e) ↦ (
    (rep f e).messages t,
    rw e (
        ap (λ (c : Context). c.findings) ((rep f e).reports _)
        ∙ findings-report_each ((rep f e).messages t) _),
  )
]

-- A finding that says which rule has made it, and for which tool.
pub record IsOf (r : Meta) (t : Tool) (x : Finding) : Type 0 where
  pub identifier : x.rule_id ≡ r.id
  pub weight : x.severity ≡ r.severity
  pub kind : x.category ≡ r.category
  pub tool : x.tool_name ≡ t.name
  pub file : x.source_file ≡ t.source_file
  pub line : x.source_line ≡ t.source_line

tool_finding-IsOf :
    (r : Meta) (t : Tool) (m : Text) {x : Finding} → x ≡ tool_finding r t m → IsOf r t x
tool_finding-IsOf r t m e = record {
  identifier = ap (λ (f : Finding). f.rule_id) e;
  weight = ap (λ (f : Finding). f.severity) e;
  kind = ap (λ (f : Finding). f.category) e;
  tool = ap (λ (f : Finding). f.tool_name) e;
  file = ap (λ (f : Finding). f.source_file) e;
  line = ap (λ (f : Finding). f.source_line) e;
}

-- For rules whose callbacks only report, each finding of `Run` belongs to one of the rules and to the
-- tool: it carries that rule's identifier, severity and category and the tool's name, file and line.
pub run_attribution :
    (rs : List Rule) (t : Tool) {x : Finding}
    → All IsReporter rs
    → In x (run rs t)
    → (r : Rule) × In r rs × IsOf r.info t x
unfolding run
run_attribution [] t rep h = elim h [ ]
run_attribution (r ∷ rs) t rep h = elim (In-append (run_rule t r) (run rs t) h) [
  | inl k ↦
      let (ms, e) = run_rule-eq r rep.0 t in
      let (m, _, p) = In-tool_findings r.info t ms (rw e at k) in
      (r, here refl, tool_finding-IsOf r.info t m p)
  | inr k ↦ let (q, i, p) = run_attribution rs t rep.1 k in (q, there i, p)
]

-- Rules that are registered later add their findings behind those of the earlier ones, and change none.
pub run-append : (rs qs : List Rule) (t : Tool) → run (rs ++ qs) t ≡ run rs t ++ run qs t
unfolding run
run-append [] qs t = refl
run-append (r ∷ rs) qs t =
    ap (◌++◌ (run_rule t r)) (run-append rs qs t)
    ∙ sym (append_assoc (run_rule t r) (run rs t) (run qs t))
