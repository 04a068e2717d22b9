-- ===== src/Rules/Collision.antt =====
-- internal/rules/collision.go: names within one server are to be unique.
pub mod Laws
use mcpcheck.Prelude.{
  ℕ, suc, ◌≡◌, Bool, true, false, not, ◌&&◌, List, [], ◌∷◌, ◌++◌, Option, none, some, Text, codes,
  ◌=ₜ◌, text_lt, Tables, sort, length, quoted, decimal, join, ltb, ◌==◌, if◌then◌else◌,
}
use mcpcheck.Mcpmodel.{Tool, ToolSet}
use mcpcheck.Registry.{sev_error, fix_none, cat_spec, ProjectContext, report_project, Rule}

-- An index with the tool that it denotes.
abbrev pub Place : Type 0
Place = ℕ × Tool

-- The map `byName`.
abbrev pub Groups : Type 0
Groups = List (Text × List Place)

-- `byName[name]`; a missing key gives nil.
unfoldable pub group : Text → Groups → List Place
group name [] = []
group name ((k, ps) ∷ m) = if k =ₜ name then ps else group name m

-- `byName[name] = append(byName[name], i)`
unfoldable pub add_place : Text → Place → Groups → Groups
add_place name p [] = (name, p ∷ []) ∷ []
add_place name p ((k, ps) ∷ m) =
    if k =ₜ name then (k, ps ++ p ∷ []) ∷ m else (k, ps) ∷ add_place name p m

-- The first loop of the callback.
pub group_from : ℕ → List Tool → Groups → Groups
group_from i [] m = m
group_from i (t ∷ ts) m = group_from (suc i) ts (add_place t.name (i, t) m)

unfoldable pub by_name : List Tool → Groups
unfolding group_from
by_name tools = group_from 0 tools []

-- The loop over the map that collects `collisions`, before they are sorted.
unfoldable pub collisions : Groups → List Text
collisions [] = []
collisions ((k, ps) ∷ m) =
    if not (k =ₜ []) && ltb 1 (length ps) then k ∷ collisions m else collisions m

-- `locationOf`
unfoldable pub location_of : Tool → Text
location_of t =
    if t.source_file =ₜ []
    then codes "<source>"
    else if ltb 0 t.source_line
    then t.source_file ++ (codes ":" ++ decimal t.source_line)
    else t.source_file

-- The loop that collects `others` for the tool at index `i`.
unfoldable pub others : ℕ → List Place → List Text
others i [] = []
others i ((j, t) ∷ ps) = if j == i then others i ps else location_of t ∷ others i ps

module _ (u : Tables) where
  abbrev pub collision_message : Text → List Text → Text
  collision_message name locations =
      codes "duplicate tool name "
      ++ (quoted u name
          ++ (codes " (also defined at: "
              ++ (join (codes ", ") locations ++ codes "); names must be unique within a server")))

  -- The loop over the places of one name; `all` are all of them.
  unfoldable pub report_places : Text → List Place → List Place → ProjectContext → ProjectContext
  report_places name all [] pc = pc
  report_places name all ((i, t) ∷ ps) pc =
      report_places name all ps
        (report_project t (collision_message name (sort text_lt (others i all))) pc)

  -- The loop over the sorted collisions.
  unfoldable pub report_collisions : Groups → List Text → ProjectContext → ProjectContext
  report_collisions m [] pc = pc
  report_collisions m (name ∷ names) pc =
      report_collisions m names (report_places name (group name m) (group name m) pc)

  -- The callback of the rule.
  unfoldable pub check : ProjectContext → ProjectContext
  check pc =
      let m = by_name pc.tool_set.tools in report_collisions m (sort text_lt (collisions m)) pc

  unfoldable pub rule : Rule
  rule = record {
    info = record {
      id = codes "tool-name-collision";
      category = cat_spec;
      severity = sev_error;
      description =
          codes
            "Tool names within a single server must be unique; agent tool-call dispatch routes by name.";
      fix = fix_none;
    };
    implementation = none;
    project_implementation = some check;
    comparison_implementation = none;
  }
