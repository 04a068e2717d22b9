-- ===== src/Rules/Secrets.antt =====
-- internal/rules/secrets.go: descriptions that mention credentials. The library's regular expressions are a
-- parameter: `find_first` gives the part of a text that `FindStringIndex` finds.
use mcpcheck.Prelude.{
  refl, [], ◌++◌, Option, some, none, Text, codes, ◌=ₜ◌, to_lower, Tables, if◌then◌else◌, arith,
}
use mcpcheck.Mcpmodel.{Tool}
use mcpcheck.Registry.{sev_warning, fix_none, cat_safety, Context, report, Rule}
use mcpcheck.Registry.Single.{IsSingle}

abbrev pub secret_pattern : Text
secret_pattern =
    codes
      "(?i)\\b(?:password|passphrase|api[_-]?key|access[_-]?token|refresh[_-]?token|private[_-]?key|client[_-]?secret|bearer|secret|token)\\b"

abbrev secret_message : Text → Text
secret_message match =
    codes "description mentions secret-shaped term \""
    ++ match
    ++ codes "\"; verify that the tool does not accept or return credentials in plaintext"

module _ (u : Tables) (find_first : Text → Text → Option Text) where
  -- `findSecretMention`
  unfoldable pub find_secret_mention : Text → Text
  find_secret_mention s = elim (find_first secret_pattern s) [ none ↦ [] | some m ↦ to_lower u m ]

  -- The callback of the rule.
  unfoldable pub check : Context → Context
  check c =
      let match = find_secret_mention c.tool.description in
      if match =ₜ [] then c else report (secret_message match) c

  unfoldable pub rule : Rule
  rule = record {
    info = record {
      id = codes "tool-description-mentions-secret";
      category = cat_safety;
      severity = sev_warning;
      description =
          codes
            "Tool descriptions that mention credential-shaped terms may be exposing secrets through arguments or results; flag for review.";
      fix = fix_none;
    };
    implementation = some check;
    project_implementation = none;
    comparison_implementation = none;
  }

  abbrev pub complaint : Tool → Option Text
  complaint t =
      let match = find_secret_mention t.description in
      if match =ₜ [] then none else some (secret_message match)

  pub rule-IsSingle : IsSingle rule complaint
  unfolding rule check
  rule-IsSingle = record { callback = check; declared = refl; reports = λ c. ground arith }
