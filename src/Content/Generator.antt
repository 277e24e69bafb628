-- ===== src/Content/Generator.antt =====
-- backend/app/services/block_generator.py, BlockGenerator: the rounds that fill in the blocks of a
-- summary, with `regenerate_block` of backend/app/services/summary_runner.py. The replies of the
-- language model, as parsed, and the clock are a script of rounds. The state that the callback saves
-- after a block is left out.
pub mod Rounds
pub mod Kept
pub mod Keys
pub mod Total
pub mod Tests
use Prim.Native.String.{◌++◌ as append, count, [] as nil, ◌∷◌ as cons}
use package.text.Mathlib.Text.{starts_with}
use inuself.Base.{
  ℕ, zero, suc, ◌+◌, ◌-◌, ◌/◌, ◌%◌, min, String, Bool, true, false, not, ◌&&◌, ◌||◌, Option, none,
  some, List, [], ◌∷◌, ◌==◌, ℕ_eq, String_eq, Dict, lookup, insert, keys, get_elem?, any, all,
  filter, elem, map, or_default, Result, ok, err, ◌>>=◌, ltb, leb, if◌then◌else◌,
}
use inuself.Content.Texts.{str}
use inuself.Gateway.Json.{
  Value, Fields, Elements, null, bool, num, text, array, obj, no_fields, field, no_elements,
  element,
}
use inuself.Conversation.Fields.{truthy}
use inuself.Content.Blocks.{
  BlockStatus, BlockStatus_eq, pending, success, failed, BlockDef, BlockTemplate, BlockState,
  SectionsState, group_keys,
}

abbrev pub Blocks : Type 0
Blocks = Dict String BlockState

abbrev pub max_rounds : ℕ
max_rounds = 10

abbrev pub section_min_length : ℕ
section_min_length = 50

abbrev pub round_backoff_seconds : List ℕ
round_backoff_seconds = 5 ∷ 30 ∷ 120 ∷ 300 ∷ 600 ∷ []

-- `_backoff_for`, which is asked from the second round on.
unfoldable pub backoff_for : ℕ → ℕ
backoff_for round = or_default (get_elem? round_backoff_seconds (min (round - 2) 4)) 0

-- `key.rstrip("*")`.
abbrev pub rstrip_star : String → String
rstrip_star nil = nil
rstrip_star (cons c s) =
    let rest = rstrip_star s in if rest == nil && cons c nil == "*" then nil else cons c rest

abbrev pub status_at : Option BlockState → BlockStatus → Bool
status_at none s = false
status_at (some b) s = b.status == s

unfoldable pub init_state : BlockTemplate → String → SectionsState
init_state template now = record {
  template_id = template.id;
  started_at = now;
  updated_at = now;
  round = 0;
  blocks = add template.blocks [];
}
  where
    add : List BlockDef → Blocks → Blocks
    add [] bs = bs
    add (d ∷ ds) bs = add ds (
        if d.dynamic
        then bs
        else insert d.key
            (record {
              key = d.key;
              label = text d.label;
              type_ = d.type_;
              status = pending;
              content = null;
              attempts = 0;
              last_error = none;
              depends_on = d.depends_on;
              completed_at = none;
            })
            bs)

-- A block of those that the definition expands to.
abbrev pub expands_to : BlockDef → BlockState → Bool
expands_to d b = starts_with b.key (rstrip_star d.key) && not (b.key == d.key)

abbrev pub expanded : BlockDef → Blocks → List BlockState
expanded d bs = filter (expands_to d) (map (λ p. p.1) bs)

abbrev pub all_success : List BlockState → Bool
all_success bs = all (λ b. b.status == success) bs

abbrev pub is_empty : List BlockState → Bool
is_empty [] = true
is_empty (b ∷ bs) = false

-- The loop's body of `all_required_success`.
abbrev pub def_success : Blocks → BlockDef → Bool
def_success bs d =
    if d.dynamic
    then not (is_empty (expanded d bs)) && all_success (expanded d bs)
    else status_at (lookup d.key bs) success || not d.required

unfoldable pub all_required_success : BlockTemplate → SectionsState → Bool
all_required_success template s = all (def_success s.blocks) template.blocks

-- A block of the dictionary that is there is changed.
abbrev pub modify : String → (BlockState → BlockState) → Blocks → Blocks
modify key change [] = []
modify key change ((k, b) ∷ bs) =
    if k == key then (k, change b) ∷ bs else (k, b) ∷ modify key change bs

abbrev pub modify_all : List String → (BlockState → BlockState) → Blocks → Blocks
modify_all [] change bs = bs
modify_all (k ∷ ks) change bs = modify_all ks change (modify k change bs)

-- The parsed reply of the first call: a text and two lists.
pub record Metadata : Type 0 where
  pub title : String
  pub keywords : Elements
  pub headings : Elements

abbrev pub is_complete : Metadata → Bool
is_complete m = not (m.title == "") && truthy (array m.keywords) && truthy (array m.headings)

abbrev pub attempted : BlockState → BlockState
attempted b = record b { attempts = b.attempts + 1 }

abbrev pub failed_with : String → BlockState → BlockState
failed_with error b = record b { status = failed; last_error = some error }

abbrev pub succeeded : String → Value → BlockState → BlockState
succeeded now content b = record b {
  status = success;
  content = content;
  last_error = none;
  completed_at = some now;
}

abbrev pub missing_metadata : String
missing_metadata = "metadata response missing title/keywords/headings"

-- The first call's end at its targets: an exception's text, or the parsed reply.
abbrev pub after_metadata : String → Result String Metadata → List String → Blocks → Blocks
after_metadata now (err e) targets bs =
    modify_all targets (failed_with (append "metadata extraction failed: " e)) bs
after_metadata now (ok m) targets bs =
    if is_complete m
    then modify "headings" (succeeded now (array m.headings)) (
        modify "keywords" (succeeded now (array m.keywords))
          (modify "title" (succeeded now (text m.title)) bs))
    else modify_all targets (failed_with missing_metadata) bs

abbrev pub metadata_targets : Blocks → List String
metadata_targets bs = filter (λ k. not (status_at (lookup k bs) success)) group_keys

abbrev pub has_all : List String → Blocks → Bool
has_all [] bs = true
has_all (k ∷ ks) bs = elem k (keys bs) && has_all ks bs

abbrev pub no_targets : List String → Bool
no_targets [] = true
no_targets (k ∷ ks) = false

-- The new blocks, and whether there was something to do; a KeyError without the group's blocks.
unfoldable pub run_metadata_group :
    String → Result String Metadata → Blocks → Result (Unit {0}) (Blocks × Bool)
run_metadata_group now reply bs =
    if not (has_all group_keys bs)
    then err tt
    else if no_targets (metadata_targets bs)
    then ok (bs, false)
    else ok (
      after_metadata now reply (metadata_targets bs)
          (modify_all (metadata_targets bs) attempted bs),
      true,
    )

abbrev pub expansion : BlockDef → String → Value → BlockState
expansion d key item = record {
  key = key;
  label = item;
  type_ = d.type_;
  status = pending;
  content = null;
  attempts = 0;
  last_error = none;
  depends_on = d.depends_on;
  completed_at = none;
}

-- `enumerate` from `i` on.
abbrev pub add_sections : BlockDef → ℕ → Elements → Blocks → Blocks
add_sections d i no_elements bs = bs
add_sections d i (element item items) bs =
    let key = append (rstrip_star d.key) (str i) in
    add_sections d (i + 1) items (insert key (expansion d key item) bs)

abbrev pub items_of : Value → Elements
items_of (array vs) = vs
items_of v = no_elements

abbrev pub expand_from : BlockDef → Option BlockState → Blocks → Blocks
expand_from d none bs = bs
expand_from d (some source) bs =
    if source.status == success && is_empty (expanded d bs)
    then add_sections d 0 (items_of source.content) bs
    else bs

abbrev pub expand_all : List BlockDef → Blocks → Blocks
expand_all [] bs = bs
expand_all (d ∷ ds) bs =
    expand_all ds
      (if d.dynamic then expand_from d (lookup (or_default d.expand_from "") bs) bs else bs)

unfoldable pub expand_dynamic_blocks : BlockTemplate → Blocks → Blocks
expand_dynamic_blocks template bs = expand_all template.blocks bs

abbrev pub is_section_target : Blocks → BlockState → Bool
is_section_target bs b =
    starts_with b.key "section_"
    && not (b.status == success)
    && all (λ d. status_at (lookup d bs) success) b.depends_on

-- `_one`, at an exception's text or the parsed content.
abbrev pub after_section : String → Result String String → BlockState → BlockState
after_section now (err e) b = failed_with e b
after_section now (ok content) b =
    if ltb (count content) section_min_length
    then failed_with (append "content too short (" (append (str (count content)) " chars)")) b
    else succeeded now (text content) b

abbrev pub map_blocks : (BlockState → BlockState) → Blocks → Blocks
map_blocks change [] = []
map_blocks change ((k, b) ∷ bs) = (k, change b) ∷ map_blocks change bs

-- The targets are chosen first, and each call changes its own block only, so that the order of the
-- concurrent calls makes no difference.
unfoldable pub run_sections : String → (String → Result String String) → Blocks → Blocks × Bool
run_sections now answers bs =
    if any (is_section_target bs) (map (λ p. p.1) bs)
    then (
      map_blocks
          (λ b.
            if is_section_target bs b then after_section now (answers b.key) (attempted b) else b)
          bs,
      true,
    )
    else (bs, false)

-- One round: its time, whether MAX_TOTAL_SECONDS are over, and the model's replies.
pub record Round : Type 0 where
  pub now : String
  pub late : Bool
  pub reply : Result String Metadata
  pub answers : String → Result String String

abbrev pub round_end : Bool → String → SectionsState → Blocks × Bool → SectionsState × Bool
round_end progressed now s (bs, more) =
    (record s { blocks = bs; updated_at = now }, progressed || more)

unfoldable pub run_round :
    BlockTemplate → Round → SectionsState → Result (Unit {0}) (SectionsState × Bool)
run_round template r s = do
  (bs, progressed) ← run_metadata_group r.now r.reply s.blocks
  ok (
      round_end progressed r.now s
        (run_sections r.now r.answers (expand_dynamic_blocks template bs)))

-- The rest of the `for`, with so many rounds left.
unfoldable pub generate_from :
    ℕ → ℕ → BlockTemplate → (ℕ → Round) → SectionsState → Result (Unit {0}) SectionsState
generate_from zero round template script s = ok s
generate_from (suc left) round template script s =
    if (script round).late
    then ok (record s { round = round })
    else elim (run_round template (script round) (record s { round = round })) [
      | err e ↦ err e
      | ok after ↦
          let rest = generate_from left (round + 1) template script after.0 in
          if not after.1 || all_required_success template after.0 then ok after.0 else rest
    ]

unfoldable pub generate :
    BlockTemplate → (ℕ → Round) → SectionsState → Result (Unit {0}) SectionsState
generate template script s = generate_from max_rounds 1 template script s

-- `group_for`.
abbrev pub group_for : String → List (List String) → Option (List String)
group_for key [] = none
group_for key (g ∷ gs) = if elem key g then some g else group_for key gs

abbrev pub reset : BlockState → BlockState
reset b = record b { status = pending; content = null; last_error = none; completed_at = none }

unfoldable pub regenerate_block :
    BlockTemplate → (ℕ → Round) → String → SectionsState → Result (Unit {0}) SectionsState
regenerate_block template script key s = generate template script (record s {
  round = 0;
  blocks =
      modify_all (or_default (group_for key template.group_extracts) (key ∷ [])) reset s.blocks;
})
