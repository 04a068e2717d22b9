-- ===== src/Registry/Single.antt =====
-- Rules that report at most one message for a tool, and what a run of such a rule returns.
use mcpcheck.Prelude.{
  ◌≡◌, refl, ap, ◌∙◌, List, [], ◌∷◌, Option, none, some, Text, append-nil, sym, ◌↔◌,
}
use mcpcheck.Mcpmodel.{Tool}
use mcpcheck.Registry.{Finding, Meta, Context, tool_finding, report, Rule, run}
use mcpcheck.Registry.Dispatch.{IsReporter, report_each}

-- Reports the message, if there is one.
abbrev pub report_some : Option Text → Context → Context
report_some none c = c
report_some (some m) c = report m c

abbrev pub found : Meta → Tool → Option Text → List Finding
found r t none = []
found r t (some m) = tool_finding r t m ∷ []

-- A rule of one callback, whose message depends on the tool alone.
pub record IsSingle (r : Rule) (complaint : Tool → Option Text) : Type 0 where
  pub callback : Context → Context
  pub declared : r.implementation ≡ some callback
  pub reports : (c : Context) → callback c ≡ report_some (complaint c.tool) c

findings-report_some :
    (o : Option Text) (r : Meta) (t : Tool)
    → (report_some o (record { tool = t; findings = []; rule = r })).findings ≡ found r t o
unfolding report
findings-report_some none r t = refl
findings-report_some (some m) r t = refl

pub run-IsSingle :
    (r : Rule) {complaint : Tool → Option Text} (t : Tool)
    → IsSingle r complaint
    → run (r ∷ []) t ≡ found r.info t (complaint t)
unfolding run
run-IsSingle r {complaint} t s = rw s.declared (
    append-nil _
    ∙ ap (λ (c : Context). c.findings) (s.reports _)
    ∙ findings-report_some (complaint t) r.info t)

found-eq-nil : (r : Meta) (t : Tool) (o : Option Text) → (found r t o ≡ []) ↔ (o ≡ none)
found-eq-nil r t none = (λ _. refl, λ _. refl)
found-eq-nil r t (some m) = (λ e. absurd (cc), λ e. absurd (cc))

pub run-eq-nil_iff :
    (r : Rule) {complaint : Tool → Option Text} (t : Tool)
    → IsSingle r complaint
    → (run (r ∷ []) t ≡ []) ↔ (complaint t ≡ none)
run-eq-nil_iff r {complaint} t s = rw (run-IsSingle r t s) (found-eq-nil r.info t (complaint t))

-- Such a rule only reports, so that its findings can be attributed to it.
pub IsSingle-IsReporter :
    (r : Rule) {complaint : Tool → Option Text} → IsSingle r complaint → IsReporter r
unfolding report
IsSingle-IsReporter r {complaint} s f e = record {
  messages = λ t. listed (complaint t);
  reports = λ c.
      ap (λ (g : Context → Context). g c) (same (sym e ∙ s.declared))
      ∙ s.reports c
      ∙ one_by_one (complaint c.tool) c;
}
  where
    same : {h k : Context → Context} → some h ≡ some k → h ≡ k
    same p = cc

    listed : Option Text → List Text
    listed none = []
    listed (some m) = m ∷ []

    one_by_one : (o : Option Text) (c : Context) → report_some o c ≡ report_each (listed o) c
    one_by_one none c = refl
    one_by_one (some m) c = refl
