-- ===== src/Rules/Network.antt =====
-- internal/rules/network.go: properties that look like a URL are to be constrained.
use mathlib.Core.Logic.Iff
use mcpcheck.Prelude.{
  ◌≡◌, refl, ◌↔◌, Bool, List, [], ◌∷◌, ◌++◌, Option, some, none, Text, codes, Tables,
}
use mcpcheck.Mcpmodel.{Tool}
use mcpcheck.Registry.{sev_warning, fix_none, cat_safety, Context, Rule, run}
use mcpcheck.Registry.Single.{IsSingle, report_some, run-eq-nil_iff}
use mcpcheck.Rules.Schema.{schema_properties}
use mcpcheck.Rules.OpenProperty.{is_listed_name, exposed_key, IsExposed, open_key_iff}

abbrev pub url_property_names : List Text
url_property_names =
    codes "url"
    ∷ codes "uri"
    ∷ codes "endpoint"
    ∷ codes "webhook"
    ∷ codes "webhookurl"
    ∷ codes "callbackurl"
    ∷ codes "targeturl"
    ∷ codes "redirecturl"
    ∷ codes "requesturl"
    ∷ []

abbrev exposed_message : Text → Text
exposed_message key =
    codes "input property \""
    ++ key
    ++ codes "\" looks like a URL but has no allowlist "
    ++ codes
        "(expected one of: enum, pattern, const) — agent could drive arbitrary outbound requests"

abbrev message_of : Option Text → Option Text
message_of none = none
message_of (some key) = some (exposed_message key)

module _ (u : Tables) where
  unfoldable pub is_url_property_name : Text → Bool
  is_url_property_name key = is_listed_name u url_property_names key

  -- The callback of the rule.
  unfoldable pub check : Context → Context
  check c =
      report_some
        (message_of (exposed_key is_url_property_name (schema_properties c.tool.input_schema))) c

  unfoldable pub rule : Rule
  rule = record {
    info = record {
      id = codes "network-tool-no-allowlist";
      category = cat_safety;
      severity = sev_warning;
      description =
          codes
            "Tools that accept a user-supplied URL must constrain the destination via an enum, pattern, or const so an agent cannot drive arbitrary outbound requests (SSRF).";
      fix = fix_none;
    };
    implementation = some check;
    project_implementation = none;
    comparison_implementation = none;
  }

  abbrev pub complaint : Tool → Option Text
  complaint t = message_of (exposed_key is_url_property_name (schema_properties t.input_schema))

  pub rule-IsSingle : IsSingle rule complaint
  unfolding rule check
  rule-IsSingle = record { callback = check; declared = refl; reports = λ c. refl }

  message_of-eq-none : (o : Option Text) → (message_of o ≡ none) ↔ (o ≡ none)
  message_of-eq-none none = (λ _. refl, λ _. refl)
  message_of-eq-none (some k) = (λ e. absurd (cc), λ e. absurd (cc))

  -- The rule is silent exactly for the tools whose input schema has no property with a listed name and a
  -- schema without `enum`, `pattern` and `const`.
  pub network_silent_iff :
      (t : Tool) → (run (rule ∷ []) t ≡ []) ↔ (¬ IsExposed is_url_property_name t.input_schema)
  network_silent_iff t = Iff.trans (run-eq-nil_iff rule t rule-IsSingle) (
      Iff.trans
        (message_of-eq-none (exposed_key is_url_property_name (schema_properties t.input_schema)))
        (open_key_iff is_url_property_name t.input_schema))
