-- ===== src/Tests/Rules.antt =====
-- The rules on small tools: each law at a tool that it speaks about.
use mcpcheck.Prelude.{
  ◌≡◌, refl, ◌↔◌, ◌⊎◌, inl, inr, true, List, [], ◌∷◌, Option, none, some, Text, codes, trim_space,
  In, In-cons, here, there, count, ◌=ₜ◌, ascii_tables, member, byte_len,
}
use mcpcheck.Mcpmodel.{
  Value, string, array, object, null, nil, cons, Fields, end, field, Tool, ToolSet,
}
use mcpcheck.Registry.{Rule, run, run_project, run_comparison, tool_finding, report}
use mcpcheck.Registry.Names.{finding_names}
use mcpcheck.Registry.Dispatch.{IsOf, run_attribution}
use mcpcheck.Registry.Single.{IsSingle-IsReporter}
use mcpcheck.Rules.SnakeCase
use mcpcheck.Rules.Description
use mcpcheck.Rules.Destructive
use mcpcheck.Rules.Network
use mcpcheck.Rules.Required
use mcpcheck.Rules.Required.Laws.{IsConsistent, required_silent_iff}
use mcpcheck.Rules.Pii
use mcpcheck.Rules.Pii.Placeholders.{IsAmongExamples}
use mcpcheck.Rules.Pii.Laws.{texts_in, IsHarmless, pii_silent_iff}
use mcpcheck.Rules.StaticVsLive
use mcpcheck.Rules.StaticVsLive.Laws.{drift_findings}
use mcpcheck.Rules.Collision
use mcpcheck.Rules.Collision.Laws.{collision_findings}

abbrev tool : Text → Text → Option Fields → Tool
tool name description schema = record {
  name = name;
  description = description;
  input_schema = schema;
  source_file = codes "server.py";
  source_line = 7;
}

abbrev plain : Text → Tool
plain name = tool name (codes "Reads one file.") none

abbrev set_of : List Tool → ToolSet
set_of tools = record { tools = tools; source = codes "server.py" }

abbrev twins : ToolSet
twins = set_of (plain (codes "ping") ∷ plain (codes "read") ∷ plain (codes "ping") ∷ [])

abbrev singles : ToolSet
singles = set_of (plain (codes "read") ∷ plain (codes "write") ∷ [])

-- {"properties": {"url": {}}, "required": ["url", "mode"]}
abbrev open_props : Fields
open_props = field (codes "url") (object end) end

abbrev open_schema : Fields
open_schema = field (codes "properties") (object open_props) (
    field (codes "required")
      (array (cons (string (codes "url")) (cons (string (codes "mode")) nil))) end)

collision_findings_example :
    count (codes "ping") (finding_names (run_project (Collision.rule ascii_tables ∷ []) twins)) ≡ 2
unfolding ◌=ₜ◌
collision_findings_example = collision_findings ascii_tables twins (codes "ping")

drift_findings_example :
    count (codes "ping") (
      finding_names
        (run_comparison (StaticVsLive.rule ascii_tables ∷ []) (some twins) (some singles)))
    ≡ 1
unfolding ◌=ₜ◌ member
drift_findings_example = drift_findings ascii_tables twins singles (codes "ping")

is_snake_case_example :
    (SnakeCase.is_snake_case ascii_tables (codes "list_files") ≡ true)
    ↔ SnakeCase.IsSnakeCase ascii_tables (codes "list_files")
is_snake_case_example = SnakeCase.is_snake_case_iff ascii_tables (codes "list_files")

gate_silent_example :
    (run (Destructive.rule ascii_tables ∷ []) (tool (codes "delete_file") [] (some open_schema))
      ≡ [])
    ↔ ((¬ Destructive.IsDestructive ascii_tables (codes "delete_file"))
        ⊎ Destructive.IsGated ascii_tables (some open_schema))
gate_silent_example =
    Destructive.gate_silent_iff ascii_tables (tool (codes "delete_file") [] (some open_schema))

required_silent_example :
    (run (Required.rule ∷ []) (tool (codes "get") [] (some open_schema)) ≡ [])
    ↔ IsConsistent (some open_schema)
required_silent_example = required_silent_iff (tool (codes "get") [] (some open_schema))

-- An engine that takes every text for a match.
abbrev whole_text : Text → Text → List Text
whole_text pattern s = s ∷ []

-- {"examples": [["555-867-5309"]]}
abbrev phone_schema : Fields
phone_schema =
    field (codes "examples") (array (cons (array (cons (string (codes "555-867-5309")) nil)) nil))
      end

pii_silent_example :
    (run (Pii.rule ascii_tables whole_text ∷ []) (tool (codes "call") [] (some phone_schema)) ≡ [])
    ↔ ((ex : Value)
        → IsAmongExamples (some phone_schema) ex
        → (s : Text) → In s (texts_in ex)
        → IsHarmless ascii_tables whole_text s)
pii_silent_example =
    pii_silent_iff ascii_tables whole_text (tool (codes "call") [] (some phone_schema))

-- The same two properties in both orders.
abbrev url_then_mode : Fields
url_then_mode = field (codes "url") (object end) (field (codes "mode") null end)

abbrev mode_then_url : Fields
mode_then_url = field (codes "mode") null (field (codes "url") (object end) end)

In-swap {ℓ} : {A : Type ℓ} {x y z : A} → In x (y ∷ z ∷ []) → In x (z ∷ y ∷ [])
In-swap h = elim (In-cons h) [
  | inl e ↦ there (here e)
  | inr k ↦ elim (In-cons k) [ inl e ↦ here e | inr m ↦ elim m [ ] ]
]

abbrev both : List Rule
both = Description.rule ∷ Network.rule ascii_tables ∷ []

abbrev cut : Tool
cut = tool (codes "cut") (codes "...") none

cut_is_short : In (tool_finding Description.rule.info cut Description.short_message) (run both cut)
unfolding run Network.rule Network.check Description.rule Description.check ◌=ₜ◌ trim_space byte_len
    report Description.ends_truncated
cut_is_short = here refl

attribution_example :
    (r : Rule) × In r both
    × IsOf r.info cut (tool_finding Description.rule.info cut Description.short_message)
attribution_example =
    run_attribution both cut
      (
        IsSingle-IsReporter Description.rule Description.rule-IsSingle,
        (IsSingle-IsReporter (Network.rule ascii_tables) (Network.rule-IsSingle ascii_tables), tt),
      )
      cut_is_short
