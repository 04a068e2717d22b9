-- ===== src/Scanner/Documents.antt =====
-- The JSON intake reads back the tools of a `tools/list` response.
use mcpcheck.Prelude.{
  ◌≡◌, refl, ap, ◌∙◌, Bool, true, false, List, [], ◌∷◌, Option, none, some, Text, codes, map,
}
use mcpcheck.Mcpmodel.{
  Value, null, string, array, object, Items, nil, cons, Fields, end, field, Tool,
}
use mcpcheck.Scanner.Json.{
  field_of, store_map, store_fields, store_tool, add_stored, store_tools, envelope_tools,
  tools_of_value, tools_of_parsed, parse_tools_json,
}

-- A tool as a server writes it.
abbrev pub schema_value : Option Fields → Value
schema_value none = null
schema_value (some fs) = object fs

abbrev pub tool_value : Tool → Value
tool_value t = object (
    field (codes "name") (string t.name) (
      field (codes "description") (string t.description)
        (field (codes "inputSchema") (schema_value t.input_schema) end)))

abbrev pub tool_items : List Tool → Items
tool_items [] = nil
tool_items (t ∷ ts) = cons (tool_value t) (tool_items ts)

-- What a document does not hold.
abbrev pub unplaced : Tool → Tool
unplaced t = record t { source_file = []; source_line = 0 }

-- The keys of a tool are those of its fields, and of no other field.
pub record AreFieldNames (matches : Text → Text → Bool) : Type 0 where
  pub tools : matches (codes "tools") (codes "tools") ≡ true
  pub name : matches (codes "name") (codes "name") ≡ true
  pub description : matches (codes "description") (codes "description") ≡ true
  pub input_schema : matches (codes "inputSchema") (codes "inputSchema") ≡ true
  pub description_name : matches (codes "description") (codes "name") ≡ false
  pub schema_name : matches (codes "inputSchema") (codes "name") ≡ false
  pub schema_description : matches (codes "inputSchema") (codes "description") ≡ false

module _ (matches : Text → Text → Bool) (v : AreFieldNames matches) where
  store_map-schema : (s : Option Fields) → store_map (some (schema_value s)) ≡ some s
  store_map-schema none = refl
  store_map-schema (some fs) = refl

  -- A key for which none of the fields behind it has another spelling is read.
  field_of-last :
      (name k : Text) (w : Value) (fs : Fields)
      → matches k name ≡ true
      → field_of matches name fs ≡ none
      → field_of matches name (field k w fs) ≡ some w
  unfolding field_of
  field_of-last name k w fs m e = rw e (rw m refl)

  store_tool-value : (t : Tool) → store_tool matches (tool_value t) ≡ some (unplaced t)
  unfolding field_of
  store_tool-value t =
      rw
        (
          v.name, v.description_name, v.description, v.schema_name, v.schema_description,
          v.input_schema,
        )
        (ap (store_fields (some t.name) (some t.description)) (store_map-schema t.input_schema))

  store_tools-items :
      (ts : List Tool) → store_tools matches (tool_items ts) ≡ some (map unplaced ts)
  unfolding store_tools
  store_tools-items [] = refl
  store_tools-items (t ∷ ts) =
      ap (λ o. add_stored o (store_tools matches (tool_items ts))) (store_tool-value t)
      ∙ ap (add_stored (some (unplaced t))) (store_tools-items ts)

  -- A document with the tools as an array, or with an object whose field `tools` holds that array, is read
  -- as the tools with their names, descriptions and schemas in their order, for any tools and whatever other
  -- fields stand behind `tools`.
  pub parse_tools_json-items :
      (parse : Text → Option Value) (raw : Text) (ts : List Tool) (more : Fields)
      → field_of matches (codes "tools") more ≡ none
      → (parse raw ≡ some (array (tool_items ts))
          → parse_tools_json matches parse raw ≡ some (map unplaced ts))
        × (parse raw ≡ some (object (field (codes "tools") (array (tool_items ts)) more))
            → parse_tools_json matches parse raw ≡ some (map unplaced ts))
  unfolding parse_tools_json tools_of_value
  parse_tools_json-items parse raw ts more other = (
    λ h. ap (tools_of_parsed matches) h ∙ store_tools-items ts,
    λ h.
        ap (tools_of_parsed matches) h
        ∙ ap (envelope_tools matches) (
            field_of-last (codes "tools") (codes "tools") (array (tool_items ts)) more v.tools
              other)
        ∙ store_tools-items ts,
  )
