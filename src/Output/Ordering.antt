-- ===== src/Output/Ordering.antt =====
-- internal/output/text.go and internal/output/rules.go: the order in which findings and rules are written.
use mathlib.Core.List.{Perm}
use mcpcheck.Prelude.{
  ◌≡◌, Bool, true, false, not, List, ◌=ₜ◌, text_eq_iff, text_lt, text_lt-StrictWeak, text_lt-total,
  StrictWeak, sort, sort-perm, sort-IsSorted, IsSorted, if◌then◌else◌, arith,
}
use mcpcheck.Registry.{Finding, Rule}

-- The `less` function of `WriteText`.
unfoldable pub finding_lt : Finding → Finding → Bool
finding_lt a b =
    if not (a.tool_name =ₜ b.tool_name)
    then text_lt a.tool_name b.tool_name
    else text_lt a.rule_id b.rule_id

-- The findings of `WriteText`, one to a line in this order.
unfoldable pub text_order : List Finding → List Finding
text_order findings = sort finding_lt findings

-- The `less` function of `WriteRulesText` and `WriteRulesJSON`, and the order of their rows.
unfoldable pub rule_lt : Rule → Rule → Bool
rule_lt a b = text_lt a.info.id b.info.id

unfoldable pub rule_order : List Rule → List Rule
rule_order rules = sort rule_lt rules

finding_lt-asym : (a b : Finding) → finding_lt a b ≡ true → finding_lt b a ≡ false
unfolding finding_lt
finding_lt-asym a b h = ground (
  arith,
  text_eq_iff a.tool_name b.tool_name,
  text_eq_iff b.tool_name a.tool_name,
  text_lt-StrictWeak.asym a.tool_name b.tool_name,
  text_lt-StrictWeak.asym a.rule_id b.rule_id,
)

finding_lt-negative_trans :
    (a b c : Finding) → finding_lt b a ≡ false → finding_lt c b ≡ false → finding_lt c a ≡ false
unfolding finding_lt
finding_lt-negative_trans a b c h k = ground (
  arith,
  text_eq_iff b.tool_name a.tool_name,
  text_eq_iff c.tool_name b.tool_name,
  text_eq_iff c.tool_name a.tool_name,
  text_lt-StrictWeak.negative_trans a.tool_name b.tool_name c.tool_name,
  text_lt-StrictWeak.negative_trans a.rule_id b.rule_id c.rule_id,
  text_lt-total b.tool_name a.tool_name,
  text_lt-total c.tool_name b.tool_name,
  text_lt-total a.tool_name b.tool_name,
  text_lt-total b.tool_name c.tool_name,
)

finding_lt-StrictWeak : StrictWeak finding_lt
finding_lt-StrictWeak = record {
  asym = finding_lt-asym;
  negative_trans = finding_lt-negative_trans;
}

-- The order in which the text format takes the findings has each finding as often as it is given, sorted by
-- the tools' names and then by the rules' identifiers.
pub text_order_lem :
    (findings : List Finding)
    → Perm (text_order findings) findings × IsSorted finding_lt (text_order findings)
unfolding text_order
text_order_lem fs = (sort-perm finding_lt fs, sort-IsSorted finding_lt finding_lt-StrictWeak fs)
