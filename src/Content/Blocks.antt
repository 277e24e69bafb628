-- ===== src/Content/Blocks.antt =====
-- backend/app/services/block_generator.py, the state of a summary's blocks and its JSON, with
-- backend/app/services/summary_templates.
pub mod RoundTrip
use Prim.Native.String.{◌++◌ as append}
use package.text.Mathlib.Text.{starts_with}
use inuself.Base.{
  ℕ, zero, suc, ◌+◌, ◌*◌, ◌/◌, ◌%◌, String, ◌≡◌, refl, Bool, true, false, not, ◌&&◌, ◌||◌, Option,
  none, some, List, [], ◌∷◌, ◌==◌, ℕ_eq, String_eq, Eq, eq_of_discrete, Dict, lookup, insert,
  get_elem?, any, all, map, or_default, or_fail, Result, ok, err, ◌>>=◌, ltb, if◌then◌else◌,
}
use inuself.Gateway.Json.{
  Value, Fields, Elements, null, bool, num, text, array, obj, no_fields, field, no_elements,
  element, get,
}

pub data BlockStatus : Type 0 where
  pending success failed : BlockStatus

unfoldable pub BlockStatus-discrete : Discrete BlockStatus
BlockStatus-discrete = hlevel

instance abbrev pub BlockStatus_eq : Eq BlockStatus
BlockStatus_eq = eq_of_discrete BlockStatus-discrete

-- `BlockStatus.value`, and `BlockStatus(value)`, which may raise ValueError.
abbrev pub status_value : BlockStatus → String
status_value pending = "pending"
status_value success = "success"
status_value failed = "failed"

abbrev pub status_of : String → Option BlockStatus
status_of s =
    if s == "pending"
    then some pending
    else if s == "success"
    then some success
    else if s == "failed"
    then some failed
    else none

pub record BlockDef : Type 0 where
  pub key : String
  pub label : String
  pub type_ : String
  pub depends_on : List String
  pub required : Bool
  pub dynamic : Bool
  pub expand_from : Option String

pub record BlockTemplate : Type 0 where
  pub id : String
  pub blocks : List BlockDef
  pub group_extracts : List (List String)

abbrev pub plain_def : String → String → String → BlockDef
plain_def key label type_ = record {
  key = key;
  label = label;
  type_ = type_;
  depends_on = [];
  required = true;
  dynamic = false;
  expand_from = none;
}

abbrev pub section_def : BlockDef
section_def = record {
  key = "section_*";
  label = "(from headings)";
  type_ = "long_text";
  depends_on = "headings" ∷ [];
  required = true;
  dynamic = true;
  expand_from = some "headings";
}

abbrev pub group_keys : List String
group_keys = "title" ∷ "keywords" ∷ "headings" ∷ []

abbrev pub default_template : BlockTemplate
default_template = record {
  id = "default";
  blocks =
      plain_def "title" "제목" "text"
      ∷ plain_def "keywords" "키워드" "list"
      ∷ plain_def "headings" "목차" "list"
      ∷ section_def
      ∷ [];
  group_extracts = group_keys ∷ [];
}

-- A label comes from the model's JSON, and may be no text.
pub record BlockState : Type 0 where
  pub key : String
  pub label : Value
  pub type_ : String
  pub status : BlockStatus
  pub content : Value
  pub attempts : ℕ
  pub last_error : Option String
  pub depends_on : List String
  pub completed_at : Option String

pub record SectionsState : Type 0 where
  pub template_id : String
  pub started_at : String
  pub updated_at : String
  pub round : ℕ
  pub blocks : Dict String BlockState

-- A number that is not negative, in thousandths, and back.
abbrev pub number : ℕ → Value
number n = num true (n * 1000)

abbrev pub as_number : Value → Option ℕ
as_number (num true n) = some (n / 1000)
as_number v = none

abbrev pub nullable : Option String → Value
nullable none = null
nullable (some s) = text s

abbrev pub as_nullable : Value → Option (Option String)
as_nullable null = some none
as_nullable (text s) = some (some s)
as_nullable v = none

abbrev pub as_text : Value → Option String
as_text (text s) = some s
as_text v = none

abbrev pub texts : List String → Elements
texts [] = no_elements
texts (s ∷ ss) = element (text s) (texts ss)

abbrev pub texts_of : Elements → Option (List String)
texts_of no_elements = some []
texts_of (element v vs) = elim (as_text v) [
  | none ↦ none
  | some s ↦ elim (texts_of vs) [ none ↦ none | some ss ↦ some (s ∷ ss) ]
]

abbrev pub as_texts : Value → Option (List String)
as_texts (array vs) = texts_of vs
as_texts v = none

-- `BlockState.to_dict`.
abbrev pub block_to_dict : BlockState → Value
block_to_dict b = obj (
    field "key" (text b.key) (
      field "label" b.label (
        field "type" (text b.type_) (
          field "status" (text (status_value b.status)) (
            field "content" b.content (
              field "attempts" (number b.attempts) (
                field "last_error" (nullable b.last_error) (
                  field "depends_on" (array (texts b.depends_on))
                    (field "completed_at" (nullable b.completed_at) no_fields)))))))))

-- `d[key]`, and `d.get(key, default)`.
abbrev pub required_field : String → Fields → Result (Unit {0}) Value
required_field key d = or_fail (get key d) tt

abbrev pub optional_field : String → Value → Fields → Value
optional_field key v d = or_default (get key d) v

-- The loop's body in `from_dict`. An error is any exception, also of a value of another type than the
-- state's fields declare.
unfoldable pub block_from_dict : Value → Result (Unit {0}) BlockState
block_from_dict (obj d) = do
  key_value ← required_field "key" d
  key ← or_fail (as_text key_value) tt
  label ← required_field "label" d
  type_value ← required_field "type" d
  type_ ← or_fail (as_text type_value) tt
  status_text ← required_field "status" d
  status_name ← or_fail (as_text status_text) tt
  status ← or_fail (status_of status_name) tt
  attempts ← or_fail (as_number (optional_field "attempts" (number 0) d)) tt
  last_error ← or_fail (as_nullable (optional_field "last_error" null d)) tt
  depends_on ← or_fail (as_texts (optional_field "depends_on" (array no_elements) d)) tt
  completed_at ← or_fail (as_nullable (optional_field "completed_at" null d)) tt
  ok (record {
    key = key;
    label = label;
    type_ = type_;
    status = status;
    content = optional_field "content" null d;
    attempts = attempts;
    last_error = last_error;
    depends_on = depends_on;
    completed_at = completed_at;
  })
block_from_dict v = err tt

abbrev pub blocks_to_dict : Dict String BlockState → Elements
blocks_to_dict [] = no_elements
blocks_to_dict ((k, b) ∷ bs) = element (block_to_dict b) (blocks_to_dict bs)

abbrev pub blocks_from_dict :
    Elements → Dict String BlockState → Result (Unit {0}) (Dict String BlockState)
blocks_from_dict no_elements bs = ok bs
blocks_from_dict (element v vs) bs = do
  b ← block_from_dict v
  blocks_from_dict vs (insert b.key b bs)

unfoldable pub to_dict : SectionsState → Fields
to_dict s = field "template_id" (text s.template_id) (
    field "started_at" (text s.started_at) (
      field "updated_at" (text s.updated_at) (
        field "round" (number s.round)
          (field "blocks" (array (blocks_to_dict s.blocks)) no_fields))))

abbrev pub as_elements : Value → Option Elements
as_elements (array vs) = some vs
as_elements v = none

unfoldable pub from_dict : Fields → Result (Unit {0}) SectionsState
from_dict d = do
  template_value ← required_field "template_id" d
  template_id ← or_fail (as_text template_value) tt
  started_value ← required_field "started_at" d
  started_at ← or_fail (as_text started_value) tt
  updated_value ← required_field "updated_at" d
  updated_at ← or_fail (as_text updated_value) tt
  round ← or_fail (as_number (optional_field "round" (number 0) d)) tt
  vs ← or_fail (as_elements (optional_field "blocks" (array no_elements) d)) tt
  blocks ← blocks_from_dict vs []
  ok (record {
    template_id = template_id;
    started_at = started_at;
    updated_at = updated_at;
    round = round;
    blocks = blocks;
  })
