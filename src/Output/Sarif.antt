-- ===== src/Output/Sarif.antt =====
-- internal/output/sarif.go: the results of a SARIF log.
use mcpcheck.Prelude.{
  ℕ, ◌≡◌, refl, List, [], ◌∷◌, Option, none, some, Text, codes, ◌=ₜ◌, text_eq_iff, if◌then◌else◌,
  ltb, arith,
}
use mcpcheck.Registry.{Severity, sev_error, sev_warning, sev_info, other_severity, Finding}

-- `severityToSARIFLevel`
unfoldable pub severity_to_sarif_level : Severity → Text
severity_to_sarif_level sev_error = codes "error"
severity_to_sarif_level sev_warning = codes "warning"
severity_to_sarif_level sev_info = codes "note"
severity_to_sarif_level (other_severity _) = codes "none"

-- A physical location: the artifact's URI, and the region's start line if there is a region.
pub record SarifLocation : Type 0 where
  pub uri : Text
  pub start_line : Option ℕ

pub record SarifResult : Type 0 where
  pub rule_id : Text
  pub level : Text
  pub message : Text
  pub locations : List SarifLocation

-- The body of the loop of `buildSARIFResults`.
unfoldable pub sarif_result : Finding → SarifResult
sarif_result f = record {
  rule_id = f.rule_id;
  level = severity_to_sarif_level f.severity;
  message = f.message;
  locations =
      if f.source_file =ₜ []
      then []
      else record {
        uri = f.source_file;
        start_line = if ltb 0 f.source_line then some f.source_line else none;
      }
        ∷ [];
}

unfoldable pub build_sarif_results : List Finding → List SarifResult
build_sarif_results [] = []
build_sarif_results (f ∷ fs) = sarif_result f ∷ build_sarif_results fs

-- The finding that a result was built from, as far as a SARIF log keeps it: no category and no tool name,
-- and no line where the line is 0 or the file is not known.
pub record Kept : Type 0 where
  pub rule_id : Text
  pub severity : Option Severity
  pub message : Text
  pub file : Text
  pub line : ℕ

-- A severity that is not one of the three is not kept.
abbrev pub known_severity : Severity → Option Severity
known_severity sev_error = some sev_error
known_severity sev_warning = some sev_warning
known_severity sev_info = some sev_info
known_severity (other_severity _) = none

abbrev pub kept : Finding → Kept
kept f = record {
  rule_id = f.rule_id;
  severity = known_severity f.severity;
  message = f.message;
  file = f.source_file;
  line = if f.source_file =ₜ [] then 0 else f.source_line;
}

-- A reader of the log.
abbrev read_level : Text → Option Severity
read_level level =
    if level =ₜ codes "error"
    then some sev_error
    else if level =ₜ codes "warning"
    then some sev_warning
    else if level =ₜ codes "note"
    then some sev_info
    else none

abbrev read_file : List SarifLocation → Text
read_file [] = []
read_file (l ∷ _) = l.uri

abbrev read_start : Option ℕ → ℕ
read_start none = 0
read_start (some n) = n

abbrev read_line : List SarifLocation → ℕ
read_line [] = 0
read_line (l ∷ _) = read_start l.start_line

abbrev pub read_result : SarifResult → Kept
read_result r = record {
  rule_id = r.rule_id;
  severity = read_level r.level;
  message = r.message;
  file = read_file r.locations;
  line = read_line r.locations;
}

read_level-severity : (s : Severity) → read_level (severity_to_sarif_level s) ≡ known_severity s
unfolding severity_to_sarif_level ◌=ₜ◌
read_level-severity sev_error = refl
read_level-severity sev_warning = refl
read_level-severity sev_info = refl
read_level-severity (other_severity _) = refl

read_result-sarif_result : (f : Finding) → read_result (sarif_result f) ≡ kept f
unfolding sarif_result
read_result-sarif_result f =
    ground (arith, read_level-severity f.severity, text_eq_iff f.source_file [])

abbrev pub read_results : List SarifResult → List Kept
read_results [] = []
read_results (r ∷ rs) = read_result r ∷ read_results rs

abbrev pub kept_all : List Finding → List Kept
kept_all [] = []
kept_all (f ∷ fs) = kept f ∷ kept_all fs

-- A reader gets back from the results of a log, in order, what each finding says but for its category and
-- its tool: the rule and the message, the severity where it is one of the three constants, the file, and the
-- line where the file is known. Of any other severity and of a line without a file nothing comes back.
pub read-build_sarif_results :
    (fs : List Finding) → read_results (build_sarif_results fs) ≡ kept_all fs
unfolding build_sarif_results
read-build_sarif_results [] = refl
read-build_sarif_results (f ∷ fs) = cc (read_result-sarif_result f, read-build_sarif_results fs)
