-- ===== src/Content/Generator/Total.antt =====
-- The rounds of a summary come to an end with a state.
use inuself.Base.{
  ℕ, zero, suc, ◌+◌, ◌≤◌, String, ◌≡◌, refl, ◌∙◌, Bool, true, false, not, ◌||◌, Result, ok, arith,
  inl, inr, Bool-cases, keys, if◌then◌else◌, String_eq,
}
use inuself.Content.Blocks.{BlockTemplate, SectionsState, group_keys}
use inuself.Content.Generator.{
  Blocks, Metadata, modify_all, attempted, after_metadata, metadata_targets, run_metadata_group,
  expand_dynamic_blocks, run_sections, Round, run_round, round_end, generate_from, generate,
  max_rounds, no_targets, has_all, all_required_success,
}
use inuself.Content.Generator.Keys.{
  Covers, keys-modify_all, after_metadata-keys, run_sections-keys, has_all-Covers,
  expand_all-Covers, keys-Covers,
}

run_metadata_group-ok :
    (now : String) (reply : Result String Metadata) (bs : Blocks)
    → has_all group_keys bs ≡ true
    → (after : Blocks × Bool) × (run_metadata_group now reply bs ≡ ok after)
      × (keys after.0 ≡ keys bs)
unfolding run_metadata_group
run_metadata_group-ok now reply bs there = elim (Bool-cases (no_targets (metadata_targets bs))) [
  | inl idle ↦ ((bs, false), rw (there, run_metadata_group, idle) refl, refl)
  | inr busy ↦ (
    (
      after_metadata now reply (metadata_targets bs)
          (modify_all (metadata_targets bs) attempted bs),
      true,
    ),
    rw (there, run_metadata_group, busy) refl,
    after_metadata-keys now reply (metadata_targets bs) _
        ∙ keys-modify_all (metadata_targets bs) attempted bs,
  )
]

run_round-ok :
    (template : BlockTemplate) (r : Round) (s : SectionsState)
    → has_all group_keys s.blocks ≡ true
    → (after : SectionsState × Bool) × (run_round template r s ≡ ok after)
      × (has_all group_keys after.0.blocks ≡ true)
      × (after.0.round ≡ s.round)
unfolding run_round expand_dynamic_blocks
run_round-ok template r s there =
    let (first, ran, same) = run_metadata_group-ok r.now r.reply s.blocks there in
    let bs = expand_dynamic_blocks template first.0 in
    let last = run_sections r.now r.answers bs in
    let grown : Covers first.0 last.0 = λ k e.
      keys-Covers bs last.0 (run_sections-keys r.now r.answers bs) k
        (expand_all-Covers template.blocks first.0 k e) in
    (
      round_end first.1 r.now s last,
      rw ran refl,
      has_all-Covers group_keys first.0 last.0 grown
          (has_all-Covers group_keys s.blocks first.0 (keys-Covers s.blocks first.0 same) there),
      refl,
    )

-- A round that is not late.
generate_from_round :
    (left round : ℕ) (template : BlockTemplate) (script : ℕ → Round) (s : SectionsState)
    (after : SectionsState × Bool)
    → (script round).late ≡ false
    → run_round template (script round) (record s { round = round }) ≡ ok after
    → generate_from (suc left) round template script s ≡ (
        if not after.1 || all_required_success template after.0
        then ok after.0
        else generate_from left (round + 1) template script after.0)
unfolding generate_from run_round
generate_from_round left round template script s after early ran =
    rw (early, generate_from, ran) refl

generate_from_total :
    (left round : ℕ) (template : BlockTemplate) (script : ℕ → Round) (s : SectionsState)
    → has_all group_keys s.blocks ≡ true
    → s.round ≤ max_rounds
    → round + left ≡ suc max_rounds
    → (s' : SectionsState) × (generate_from left round template script s ≡ ok s')
      × (has_all group_keys s'.blocks ≡ true)
      × (s'.round ≤ max_rounds)
unfolding generate_from
generate_from_total zero round template script s there low count = (s, refl, there, low)
generate_from_total (suc left) round template script s there low count =
    elim (Bool-cases (script round).late) [
      | inl late ↦
          (record s { round = round }, rw (late, generate_from) refl, there, omega (arith, count))
      | inr early ↦
          let (after, ran, kept, same) =
            run_round-ok template (script round) (record s { round = round }) there in
          let within : after.0.round ≤ max_rounds = omega (arith, count, same) in
          let (s', more, there', low') =
            generate_from_total left (round + 1) template script after.0 kept within
              (omega (arith, count)) in
          let here = generate_from_round left round template script s after early ran in
          elim (Bool-cases (not after.1 || all_required_success template after.0)) [
            | inl over ↦ (after.0, here ∙ rw over refl, kept, within)
            | inr going ↦ (s', here ∙ rw going more, there', low')
          ]
    ]

-- From a state that has the blocks of the group, the rounds end, at the tenth at the latest, with a
-- state that has them, whatever the model replies: no KeyError is raised.
pub generate_ends :
    (template : BlockTemplate) (script : ℕ → Round) (s : SectionsState)
    → has_all group_keys s.blocks ≡ true
    → s.round ≤ max_rounds
    → (s' : SectionsState) × (generate template script s ≡ ok s')
      × (has_all group_keys s'.blocks ≡ true)
      × (s'.round ≤ max_rounds)
unfolding generate
generate_ends template script s there low =
    generate_from_total max_rounds 1 template script s there low refl
