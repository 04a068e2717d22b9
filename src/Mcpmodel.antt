-- ===== src/Mcpmodel.antt =====
-- internal/mcpmodel/tool.go, and the values that `encoding/json` puts into an `any`.
use mcpcheck.Prelude.{ℕ, Bool, List, [], ◌∷◌, Option, none, some, Text, ◌=ₜ◌, if◌then◌else◌}

-- What an `any` read from JSON holds. A map is its list of fields, in the order of one iteration.
mutual
  pub data Value : Type 0 where
    null : Value
    bool : Bool → Value
    number : ℕ → Value  -- the bits of a float64
    string : Text → Value
    array : Items → Value
    object : Fields → Value

  pub data Items : Type 0 where
    nil : Items
    cons : Value → Items → Items

  pub data Fields : Type 0 where
    end : Fields
    field : Text → Value → Fields → Fields

abbrev pub to_list : Items → List Value
to_list nil = []
to_list (cons v vs) = v ∷ to_list vs

abbrev pub entries : Fields → List (Text × Value)
entries end = []
entries (field k v fs) = (k, v) ∷ entries fs

abbrev pub keys : Fields → List Text
keys end = []
keys (field k v fs) = k ∷ keys fs

-- `m[key]`: the second result of Go's lookup is whether the `Option` is `some`.
unfoldable pub lookup : Text → Fields → Option Value
lookup key end = none
lookup key (field k v fs) = if k =ₜ key then some v else lookup key fs

-- `v.(map[string]any)`
abbrev pub as_object : Value → Option Fields
as_object (object fs) = some fs
as_object _ = none

-- `v.([]any)`
abbrev pub as_array : Value → Option Items
as_array (array vs) = some vs
as_array _ = none

-- `v.(string)`
abbrev pub as_string : Value → Option Text
as_string (string s) = some s
as_string _ = none

-- A nil map is `none`.
pub record Tool : Type 0 where
  pub name : Text
  pub description : Text
  pub input_schema : Option Fields
  pub source_file : Text
  pub source_line : ℕ

pub record ToolSet : Type 0 where
  pub tools : List Tool
  pub source : Text
