-- ===== src/Content/Generator/Kept.antt =====
-- The blocks of the summary's sections that have succeeded stay as they are.
use mathlib.Core.Path.{subst}
use package.text.Mathlib.Text.{starts_with}
use inuself.Base.{
  ℕ, String, ◌≡◌, ◌⊎◌, refl, sym, ap, ◌∙◌, Bool, true, false, not, Option, none, some, List, [],
  ◌∷◌, ◌==◌, String_eq, ==_iff, lookup, elem, elem-filter, map, Result, ok, err, ok_injective,
  bind_ok, any, arith, inl, inr, Bool-cases, if◌then◌else◌, or_default,
}
use inuself.Gateway.Json.{text}
use inuself.Content.Blocks.{
  BlockStatus_eq, success, BlockDef, BlockState, SectionsState, group_keys, default_template,
  section_def,
}
use inuself.Content.Generator.Rounds.{generate_from_grows}
use inuself.Content.Generator.{
  Blocks, modify, modify_all, map_blocks, Metadata, is_complete, attempted, failed_with,
  missing_metadata, after_metadata, metadata_targets, run_metadata_group, expanded, expands_to,
  expand_from, expand_dynamic_blocks, is_section_target, run_sections, Round, regenerate_block,
  group_for, reset, run_round, generate, max_rounds, is_empty, status_at, no_targets, has_all,
}

pub lookup-modify :
    (j k : String) (change : BlockState → BlockState) (bs : Blocks)
    → lookup k (modify j change bs) ≡ (
        if j == k
        then elim (lookup k bs) [ none ↦ none | some b ↦ some (change b) ]
        else lookup k bs)
lookup-modify j k change [] = elim (Bool-cases (j == k)) [ inl e ↦ rw e refl | inr e ↦ rw e refl ]
lookup-modify j k change ((i, b) ∷ bs) = elim (Bool-cases (i == j)) [
  | inl at_j ↦ elim (Bool-cases (i == k)) [
    | inl at_k ↦
        let same : (j == k) ≡ true =
          (==_iff j k).1 (sym ((==_iff i j).0 at_j) ∙ (==_iff i k).0 at_k) in
        rw at_j (rw at_k (rw same refl))
    | inr past ↦
        let other : (j == k) ≡ false = ap (λ u. u == k) (sym ((==_iff i j).0 at_j)) ∙ past in
        rw at_j (rw past (rw other refl))
  ]
  | inr before ↦ elim (Bool-cases (i == k)) [
    | inl at_k ↦
        let other : (j == k) ≡ false =
          ap (λ u. j == u) (sym ((==_iff i k).0 at_k))
          ∙ ground (arith, before, ==_iff i j, ==_iff j i) in
        rw before (rw at_k (rw other refl))
    | inr past ↦ rw before (rw past (lookup-modify j k change bs))
  ]
]

pub lookup-map_blocks :
    (k : String) (change : BlockState → BlockState) (bs : Blocks)
    → lookup k (map_blocks change bs)
      ≡ elim (lookup k bs) [ none ↦ none | some b ↦ some (change b) ]
lookup-map_blocks k change [] = refl
lookup-map_blocks k change ((i, b) ∷ bs) = elim (Bool-cases (i == k)) [
  | inl own ↦ rw own refl
  | inr other ↦ rw other (lookup-map_blocks k change bs)
]

expanded-member :
    (d : BlockDef) (k : String) (b : BlockState) (bs : Blocks)
    → expands_to d b ≡ true
    → lookup k bs ≡ some b
    → is_empty (expanded d bs) ≡ false
expanded-member d k b [] e has = absurd (cc)
expanded-member d k b ((j, c) ∷ bs) e has = elim (Bool-cases (expands_to d c)) [
  | inl here ↦ rw here refl
  | inr past ↦ elim (Bool-cases (j == k)) [
    | inr other ↦ rw past (expanded-member d k b bs e (rw other at has))
    | inl own ↦
        let same : some c ≡ some b = rw own at has in
        let same_block : c ≡ b = cc in absurd (cc (past, e, ap (expands_to d) same_block))
  ]
]

module _ (k : String) (b : BlockState) where
  abbrev Has : Blocks → Type 0
  Has bs = lookup k bs ≡ some b

  modify-Has :
      (j : String) (change : BlockState → BlockState) (bs : Blocks)
      → (j == k) ≡ false
      → Has bs
      → Has (modify j change bs)
  modify-Has j change bs other has = rw (lookup-modify j k change bs) (rw other has)

  modify_all-Has :
      (js : List String) (change : BlockState → BlockState) (bs : Blocks)
      → elem k js ≡ false
      → Has bs
      → Has (modify_all js change bs)
  modify_all-Has [] change bs apart has = has
  modify_all-Has (j ∷ js) change bs apart has =
      let (other, rest) : ((j == k) ≡ false) × (elem k js ≡ false) = ground (arith, apart) in
      modify_all-Has js change _ rest (modify-Has j change bs other has)

  after_metadata-Has :
      (now : String) (reply : Result String Metadata) (targets : List String) (bs : Blocks)
      → elem k targets ≡ false
      → elem k group_keys ≡ false
      → Has bs
      → Has (after_metadata now reply targets bs)
  after_metadata-Has now (err e) targets bs apart outside has =
      modify_all-Has targets _ bs apart has
  after_metadata-Has now (ok m) targets bs apart outside has = elim (Bool-cases (is_complete m)) [
    | inr missing ↦ rw missing (modify_all-Has targets (failed_with missing_metadata) bs apart has)
    | inl complete ↦
        let (at_title, at_keywords, at_headings) : (("title" == k) ≡ false)
            × (("keywords" == k) ≡ false)
            × (("headings" == k) ≡ false) =
          ground (arith, outside) in
        rw complete (
          modify-Has "headings" _ _ at_headings
            (modify-Has "keywords" _ _ at_keywords (modify-Has "title" _ bs at_title has)))
  ]

  -- The first call changes blocks of the group only.
  run_metadata_group-Has :
      (now : String) (reply : Result String Metadata) (bs bs' : Blocks) (progressed : Bool)
      → run_metadata_group now reply bs ≡ ok (bs', progressed)
      → elem k group_keys ≡ false
      → Has bs
      → Has bs'
  unfolding run_metadata_group
  run_metadata_group-Has now reply bs bs' progressed e outside has =
      elim (Bool-cases (has_all group_keys bs)) [
        | inr missing ↦ absurd (cc (rw (missing, run_metadata_group) at e))
        | inl there ↦ elim (Bool-cases (no_targets (metadata_targets bs))) [
          | inl idle ↦
              rw (ap (λ p. p.0) (sym (ok_injective (rw (there, run_metadata_group, idle) at e))))
                has
          | inr busy ↦
              rw (ap (λ p. p.0) (sym (ok_injective (rw (there, run_metadata_group, busy) at e)))) (
                after_metadata-Has now reply (metadata_targets bs) _ apart outside
                  (modify_all-Has (metadata_targets bs) attempted bs apart has))
        ]
      ]
    where
      apart : elem k (metadata_targets bs) ≡ false
      apart = elem-filter (λ j. not (status_at (lookup j bs) success)) k group_keys outside

  -- An expansion of the default template adds sections only where there is none.
  expand_dynamic_blocks-Has :
      (bs : Blocks)
      → starts_with b.key "section_" ≡ true
      → (b.key == "section_*") ≡ false
      → Has bs
      → Has (expand_dynamic_blocks default_template bs)
  unfolding expand_dynamic_blocks
  expand_dynamic_blocks-Has bs section plain has = go (lookup "headings" bs)
    where
      full : is_empty (expanded section_def bs) ≡ false
      full = expanded-member section_def k b bs (rw section (rw plain refl)) has

      go : (source : Option BlockState) → Has (expand_from section_def source bs)
      go none = has
      go (some source) = elim (Bool-cases (source.status == success)) [
        | inl done ↦ rw done (rw full has)
        | inr waiting ↦ rw waiting has
      ]

  run_sections-Has :
      (now : String) (answers : String → Result String String) (bs : Blocks)
      → (b.status == success) ≡ true
      → Has bs
      → Has (run_sections now answers bs).0
  unfolding run_sections
  run_sections-Has now answers bs done has =
      elim (Bool-cases (any (is_section_target bs) (map (λ p. p.1) bs))) [
        | inr none_left ↦ rw (none_left, run_sections) has
        | inl some_left ↦
            rw (some_left, run_sections) (lookup-map_blocks k _ bs ∙ rw has (rw spared refl))
      ]
    where
      spared : is_section_target bs b ≡ false
      spared = ground (arith, done)

  run_round-Has :
      (r : Round) (s : SectionsState) (after : SectionsState × Bool)
      → run_round default_template r s ≡ ok after
      → elem k group_keys ≡ false
      → starts_with b.key "section_" ≡ true
      → (b.key == "section_*") ≡ false
      → (b.status == success) ≡ true
      → Has s.blocks
      → Has after.0.blocks
  unfolding run_round
  run_round-Has r s after e outside section plain done has =
      let (first, ran, last) = bind_ok (run_metadata_group r.now r.reply s.blocks) _ e in
      let bs = expand_dynamic_blocks default_template first.0 in
      subst (λ p. Has p.0.blocks) (ok_injective last)
        (run_sections-Has r.now r.answers bs done (
          expand_dynamic_blocks-Has first.0 section plain
            (run_metadata_group-Has r.now r.reply s.blocks first.0 first.1 ran outside has)))

not_in_group : (k : String) → starts_with k "section_" ≡ true → elem k group_keys ≡ false
not_in_group k section = elim (Bool-cases ("title" == k)) [
  | inl is ↦ absurd (cc (rw (sym ((==_iff "title" k).0 is)) at section))
  | inr not_title ↦ elim (Bool-cases ("keywords" == k)) [
    | inl is ↦ absurd (cc (rw (sym ((==_iff "keywords" k).0 is)) at section))
    | inr not_keywords ↦ elim (Bool-cases ("headings" == k)) [
      | inl is ↦ absurd (cc (rw (sym ((==_iff "headings" k).0 is)) at section))
      | inr not_headings ↦ rw not_title (rw not_keywords (rw not_headings refl))
    ]
  ]
]

-- A section that has succeeded, under its key in the blocks, is the same block, content and attempts
-- included, after all rounds of the default template, whatever the model replies in them.
pub generate-kept :
    (script : ℕ → Round) (s s' : SectionsState) (b : BlockState)
    → generate default_template script s ≡ ok s'
    → lookup b.key s.blocks ≡ some b
    → starts_with b.key "section_" ≡ true
    → (b.key == "section_*") ≡ false
    → b.status ≡ success
    → lookup b.key s'.blocks ≡ some b
unfolding generate
generate-kept script s s' b e has section plain done =
    generate_from_grows default_template (λ n u. Has b.key b u.blocks) (λ n round u p. p)
      (λ n u p. p)
      (λ n r u after ran p.
        run_round-Has b.key b r u after ran (not_in_group b.key section) section plain succeeds p)
      max_rounds 0 1 script s s' e has
  where
    succeeds : (b.status == success) ≡ true
    succeeds = (==_iff b.status success).1 done

-- Regenerating a block keeps every other section that has succeeded as it is, the sections of the old
-- headings included when it is the headings that are made anew.
pub regenerate_block-kept :
    (script : ℕ → Round) (key : String) (s s' : SectionsState) (b : BlockState)
    → regenerate_block default_template script key s ≡ ok s'
    → (key == b.key) ≡ false
    → lookup b.key s.blocks ≡ some b
    → starts_with b.key "section_" ≡ true
    → (b.key == "section_*") ≡ false
    → b.status ≡ success
    → lookup b.key s'.blocks ≡ some b
unfolding regenerate_block
regenerate_block-kept script key s s' b e other has section plain done =
    generate-kept script (record s { round = 0; blocks = modify_all targets reset s.blocks }) s' b e
      (modify_all-Has b.key b targets reset s.blocks (apart (Bool-cases (elem key group_keys))) has)
      section plain done
  where
    targets : List String
    targets = or_default (group_for key default_template.group_extracts) (key ∷ [])

    apart :
        ((elem key group_keys ≡ true) ⊎ (elem key group_keys ≡ false)) → elem b.key targets ≡ false
    apart (inl grouped) = rw grouped (not_in_group b.key section)
    apart (inr single) = rw single (rw other refl)
