-- ===== src/Content/Generator/Tests.antt =====
-- The summary of a text with two headings, of which one fails first.
use inuself.Base.{
  ℕ, ◌≤◌, String, ◌≡◌, refl, Bool, true, false, Option, none, some, [], ◌∷◌, ◌==◌, ℕ_eq, String_eq,
  lookup, Result, ok, err, arith, if◌then◌else◌,
}
use inuself.Gateway.Json.{text, no_elements, element}
use inuself.Content.Blocks.{
  BlockStatus-discrete, BlockState, SectionsState, success, default_template, group_keys, to_dict,
  from_dict,
}
use inuself.Content.Blocks.RoundTrip.{from_dict-to_dict}
use inuself.Content.Generator.{
  Metadata, Round, init_state, generate, generate_from, run_round, run_metadata_group,
  expand_dynamic_blocks, run_sections, regenerate_block, all_required_success, has_all, max_rounds,
  backoff_for,
}
use inuself.Content.Generator.Kept.{regenerate_block-kept}
use inuself.Content.Generator.Total.{generate_ends}

abbrev long : String
long = "a text that is long enough to be taken for a section of a summary"

abbrev metadata : Metadata
metadata = record {
  title = "T";
  keywords = element (text "k") no_elements;
  headings = element (text "A") (element (text "B") no_elements);
}

-- The second section is too short in the first round.
abbrev script : ℕ → Round
script n = record {
  now = "now";
  late = false;
  reply = ok metadata;
  answers = λ key. if key == "section_1" then (if n == 1 then ok "short" else ok long) else ok long;
}

abbrev after_two : Result (Unit {0}) SectionsState → Option (ℕ × Bool)
after_two (err e) = none
after_two (ok s) = some (s.round, all_required_success default_template s)

two_rounds :
    after_two (generate default_template script (init_state default_template "then"))
    ≡ some (2, true)
unfolding generate generate_from run_round run_metadata_group expand_dynamic_blocks run_sections
    init_state all_required_success BlockStatus-discrete
two_rounds = refl

backoffs : (backoff_for 2 ≡ 5) × (backoff_for 3 ≡ 30) × (backoff_for 10 ≡ 600)
unfolding backoff_for
backoffs = (refl, refl, refl)

abbrev block : String → String → BlockState
block key label = record {
  key = key;
  label = text label;
  type_ = "text";
  status = success;
  content = text "old";
  attempts = 1;
  last_error = none;
  depends_on = [];
  completed_at = some "then";
}

-- A finished summary with one section.
abbrev finished : SectionsState
finished = record {
  template_id = "default";
  started_at = "then";
  updated_at = "then";
  round = 1;
  blocks =
      ("title", block "title" "")
      ∷ ("keywords", block "keywords" "")
      ∷ ("headings", block "headings" "")
      ∷ ("section_0", block "section_0" "Old heading")
      ∷ [];
}

from_dict-to_dict_example : from_dict (to_dict finished) ≡ ok finished
from_dict-to_dict_example =
    from_dict-to_dict finished (refl, refl, (refl, refl, (refl, refl, (refl, refl, tt))))

generate_ends_example :
    (s' : SectionsState) × (generate default_template script finished ≡ ok s')
    × (has_all group_keys s'.blocks ≡ true)
    × (s'.round ≤ max_rounds)
generate_ends_example = generate_ends default_template script finished refl (omega arith)

abbrev state_of : Result (Unit {0}) SectionsState → SectionsState
state_of (err e) = finished
state_of (ok s) = s

regenerated :
    regenerate_block default_template script "headings" finished
    ≡ ok (state_of (regenerate_block default_template script "headings" finished))
unfolding regenerate_block generate generate_from run_round run_metadata_group expand_dynamic_blocks
    run_sections all_required_success BlockStatus-discrete
regenerated = refl

regenerate_block-kept_example :
    lookup "section_0"
      (state_of (regenerate_block default_template script "headings" finished)).blocks
    ≡ some (block "section_0" "Old heading")
regenerate_block-kept_example =
    regenerate_block-kept script "headings" finished
      (state_of (regenerate_block default_template script "headings" finished))
      (block "section_0" "Old heading") regenerated refl refl refl refl refl
