-- ===== src/Scanner/Json.antt =====
-- internal/scanner/jsonintake.go. The library's `encoding/json` is a parameter by its syntax: `parse`
-- reads a document into a value, and `matches` tells which keys it takes for a field's name. How a value
-- is stored into the three structs is written out; an object is taken to have one key for each field.
use mcpcheck.Prelude.{
  Bool, true, false, List, [], ◌∷◌, Option, none, some, Text, codes, Result, ok, err,
}
use mcpcheck.Mcpmodel.{
  Value, null, bool, number, string, array, object, Items, nil, cons, Fields, end, field, Tool,
}
use mcpcheck.Scanner.Files.{Node, Error, read_failed, parse_failed, text_of}

-- Storing into a `string` and into a `map[string]any`; `none` is an error of its type.
abbrev pub store_string : Option Value → Option Text
store_string none = some []
store_string (some null) = some []
store_string (some (string s)) = some s
store_string (some (bool _)) = none
store_string (some (number _)) = none
store_string (some (array _)) = none
store_string (some (object _)) = none

abbrev pub store_map : Option Value → Option (Option Fields)
store_map none = some none
store_map (some null) = some none
store_map (some (object fs)) = some (some fs)
store_map (some (bool _)) = none
store_map (some (number _)) = none
store_map (some (string _)) = none
store_map (some (array _)) = none

-- The tool of a `toolJSON`, as `convertTools` makes it.
abbrev pub convert_tool : Text → Text → Option Fields → Tool
convert_tool name description schema = record {
  name = name;
  description = description;
  input_schema = schema;
  source_file = [];
  source_line = 0;
}

abbrev pub store_fields : Option Text → Option Text → Option (Option Fields) → Option Tool
store_fields none description schema = none
store_fields (some name) none schema = none
store_fields (some name) (some description) none = none
store_fields (some name) (some description) (some schema) =
    some (convert_tool name description schema)

abbrev pub add_stored : Option Tool → Option (List Tool) → Option (List Tool)
add_stored none rest = none
add_stored (some t) none = none
add_stored (some t) (some ts) = some (t ∷ ts)

-- A later value of a field is stored over an earlier one.
abbrev pub last_value : Option Value → Bool → Value → Option Value
last_value (some w) b v = some w
last_value none true v = some v
last_value none false v = none

module _ (matches : Text → Text → Bool) where
  -- The value that is stored into a field: the last one.
  unfoldable pub field_of : Text → Fields → Option Value
  field_of name end = none
  field_of name (field k v fs) = last_value (field_of name fs) (matches k name) v

  abbrev pub store_tool : Value → Option Tool
  store_tool null = some (convert_tool [] [] none)
  store_tool (object fs) =
      store_fields (store_string (field_of (codes "name") fs))
        (store_string (field_of (codes "description") fs))
        (store_map (field_of (codes "inputSchema") fs))
  store_tool (bool _) = none
  store_tool (number _) = none
  store_tool (string _) = none
  store_tool (array _) = none

  unfoldable pub store_tools : Items → Option (List Tool)
  store_tools nil = some []
  store_tools (cons v vs) = add_stored (store_tool v) (store_tools vs)

  -- The tools of the envelope, where there is no error and they are not nil.
  abbrev pub envelope_tools : Option Value → Option (List Tool)
  envelope_tools (some (array vs)) = store_tools vs
  envelope_tools none = none
  envelope_tools (some null) = none
  envelope_tools (some (bool _)) = none
  envelope_tools (some (number _)) = none
  envelope_tools (some (string _)) = none
  envelope_tools (some (object _)) = none

  -- The two calls of `Unmarshal`, on one value.
  unfoldable pub tools_of_value : Value → Option (List Tool)
  tools_of_value (object fs) = envelope_tools (field_of (codes "tools") fs)
  tools_of_value (array vs) = store_tools vs
  tools_of_value null = some []
  tools_of_value (bool _) = none
  tools_of_value (number _) = none
  tools_of_value (string _) = none

  abbrev pub tools_of_parsed : Option Value → Option (List Tool)
  tools_of_parsed none = none
  tools_of_parsed (some v) = tools_of_value v

  module _ (parse : Text → Option Value) where
    -- `parseToolsJSON`
    unfoldable pub parse_tools_json : Text → Option (List Tool)
    parse_tools_json raw = tools_of_parsed (parse raw)

    -- `LoadToolsJSON`
    unfoldable pub load_tools_json : Text → Node → Result Error (List Tool)
    load_tools_json path n = elim (text_of n) [
      | none ↦ err (read_failed path)
      | some raw ↦ elim (parse_tools_json raw) [
        | none ↦ err (parse_failed path)
        | some tools ↦ ok tools
      ]
    ]
