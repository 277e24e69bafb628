-- ===== src/Conversation/Fields.antt =====
-- The dictionaries of JSON that backend/app/tasks/agent_task.py keeps as a message's metadata, and
-- the conversions of the standard library that it calls.
use inuself.Base.{
  ℕ, String, Bool, true, false, not, Option, ◌==◌, ℕ_eq, String_eq, if◌then◌else◌, or_default,
}
use inuself.Gateway.Json.{
  Value, Fields, Elements, null, bool, num, text, array, obj, no_fields, field, no_elements,
  element, get,
}

-- Python's `str` and `dict`, and uuid's `UUID` on a text with the `str` of an id. `dict` and `UUID`
-- may raise ValueError or TypeError.
pub record Library : Type 0 where
  pub str : Value → String
  pub dict_of : Value → Option Fields
  pub uuid : String → Option ℕ
  pub uuid_text : ℕ → String

-- `bool(value)`.
abbrev pub truthy : Value → Bool
truthy null = false
truthy (bool b) = b
truthy (num sign n) = not (n == 0)
truthy (text s) = not (s == "")
truthy (array no_elements) = false
truthy (array (element v vs)) = true
truthy (obj no_fields) = false
truthy (obj (field k v fs)) = true

-- `d[key] = value`: a key that is there keeps its place.
abbrev pub set_field : String → Value → Fields → Fields
set_field key value no_fields = field key value no_fields
set_field key value (field k v fs) =
    if k == key then field key value fs else field k v (set_field key value fs)

-- `d.pop(key, None)`.
abbrev pub pop_field : String → Fields → Fields
pop_field key no_fields = no_fields
pop_field key (field k v fs) = if k == key then fs else field k v (pop_field key fs)

-- `d.update(e)` and `{**d, ...e}`.
abbrev pub update_fields : Fields → Fields → Fields
update_fields d no_fields = d
update_fields d (field k v fs) = update_fields (set_field k v d) fs

-- `data.get(key, metadata[kept])`; the metadata have the key `kept`.
abbrev pub get_or : String → Fields → String → Fields → Value
get_or key event kept metadata = or_default (get key event) (or_default (get kept metadata) null)

abbrev pub add_element : Value → Elements → Elements
add_element v no_elements = element v no_elements
add_element v (element w ws) = element w (add_element v ws)

abbrev pub added_to : Value → Value → Value
added_to v (array vs) = array (add_element v vs)
added_to v other = other

-- `d[key].append(value)`, where `d[key]` is a list.
abbrev pub append_field : String → Value → Fields → Fields
append_field key value d = set_field key (added_to value (or_default (get key d) null)) d
