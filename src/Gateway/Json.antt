-- ===== src/Gateway/Json.antt =====
-- What `json.loads` returns, as the gateway reads it. A number is a sign and its thousandths: the
-- policy's numbers have at most three decimals. A `dict` keeps its keys in order of insertion.
use inuself.Base.{
  ℕ, String, Bool, Option, none, some, List, [], ◌∷◌, ◌==◌, String_eq, if◌then◌else◌,
}

mutual
  pub data Value : Type 0 where
    null : Value
    bool : Bool → Value
    num : Bool → ℕ → Value
    text : String → Value
    array : Elements → Value
    obj : Fields → Value

  pub data Fields : Type 0 where
    no_fields : Fields
    field : String → Value → Fields → Fields

  pub data Elements : Type 0 where
    no_elements : Elements
    element : Value → Elements → Elements

-- `d.get(key)`.
abbrev pub get : String → Fields → Option Value
get key no_fields = none
get key (field k v fs) = if k == key then some v else get key fs

abbrev pub field_names : Fields → List String
field_names no_fields = []
field_names (field k v fs) = k ∷ field_names fs
