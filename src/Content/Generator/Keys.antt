-- ===== src/Content/Generator/Keys.antt =====
-- The keys of the blocks: a round takes none away.
use inuself.Base.{
  ℕ, ◌+◌, String, ◌≡◌, refl, sym, ap, ◌∙◌, true, ◌&&◌, Option, none, some, List, [], ◌∷◌, ◌==◌,
  String_eq, ==_iff, lookup, insert, keys, elem, any, map, Result, ok, err, arith, inl, inr,
  Bool-cases, or_default,
}
use inuself.Gateway.Json.{Elements, no_elements, element}
use inuself.Content.Blocks.{BlockStatus_eq, success, BlockDef, BlockState}
use inuself.Content.Generator.{
  Blocks, modify, modify_all, map_blocks, Metadata, is_complete, failed_with, missing_metadata,
  after_metadata, add_sections, expand_from, expand_all, is_section_target, run_sections, has_all,
  expanded, is_empty, items_of,
}

keys-modify :
    (j : String) (change : BlockState → BlockState) (bs : Blocks)
    → keys (modify j change bs) ≡ keys bs
keys-modify j change [] = refl
keys-modify j change ((i, b) ∷ bs) = elim (Bool-cases (i == j)) [
  | inl own ↦ rw own refl
  | inr other ↦ rw other (ap (λ ks. i ∷ ks) (keys-modify j change bs))
]

pub keys-modify_all :
    (js : List String) (change : BlockState → BlockState) (bs : Blocks)
    → keys (modify_all js change bs) ≡ keys bs
keys-modify_all [] change bs = refl
keys-modify_all (j ∷ js) change bs =
    keys-modify_all js change (modify j change bs) ∙ keys-modify j change bs

keys-map_blocks :
    (change : BlockState → BlockState) (bs : Blocks) → keys (map_blocks change bs) ≡ keys bs
keys-map_blocks change [] = refl
keys-map_blocks change ((i, b) ∷ bs) = ap (λ ks. i ∷ ks) (keys-map_blocks change bs)

-- No key of the first is missing in the second.
abbrev pub Covers : Blocks → Blocks → Type 0
Covers bs cs = (k : String) → elem k (keys bs) ≡ true → elem k (keys cs) ≡ true

pub keys-Covers : (bs cs : Blocks) → keys cs ≡ keys bs → Covers bs cs
keys-Covers bs cs same k e = rw same e

insert-Covers : (j : String) (b : BlockState) (bs : Blocks) → Covers bs (insert j b bs)
insert-Covers j b [] k e = cc
insert-Covers j b ((i, c) ∷ bs) k e = elim (Bool-cases (i == j)) [
  | inl own ↦ rw own (rw (sym ((==_iff i j).0 own)) e)
  | inr other ↦ elim (Bool-cases (i == k)) [
    | inl here ↦ rw other (rw here refl)
    | inr past ↦ rw other (rw past (insert-Covers j b bs k (rw past at e)))
  ]
]

add_sections-Covers :
    (d : BlockDef) (i : ℕ) (items : Elements) (bs : Blocks) → Covers bs (add_sections d i items bs)
add_sections-Covers d i no_elements bs k e = e
add_sections-Covers d i (element item items) bs k e =
    add_sections-Covers d (i + 1) items _ k (insert-Covers _ _ bs k e)

expand_from-Covers :
    (d : BlockDef) (source : Option BlockState) (bs : Blocks) → Covers bs (expand_from d source bs)
expand_from-Covers d none bs k e = e
expand_from-Covers d (some source) bs k e =
    elim (Bool-cases (source.status == success && is_empty (expanded d bs))) [
      | inl fresh ↦ rw fresh (add_sections-Covers d 0 (items_of source.content) bs k e)
      | inr done ↦ rw done e
    ]

pub expand_all-Covers : (ds : List BlockDef) (bs : Blocks) → Covers bs (expand_all ds bs)
expand_all-Covers [] bs k e = e
expand_all-Covers (d ∷ ds) bs k e = elim (Bool-cases d.dynamic) [
  | inl dynamic ↦ rw dynamic (
      expand_all-Covers ds _ k
        (expand_from-Covers d (lookup (or_default d.expand_from "") bs) bs k e))
  | inr fixed ↦ rw fixed (expand_all-Covers ds bs k e)
]

pub has_all-Covers :
    (ks : List String) (bs cs : Blocks) → Covers bs cs → has_all ks bs ≡ true → has_all ks cs ≡ true
has_all-Covers [] bs cs covers e = refl
has_all-Covers (k ∷ ks) bs cs covers e =
    let (here, rest) : (elem k (keys bs) ≡ true) × (has_all ks bs ≡ true) = ground (arith, e) in
    ground (arith, covers k here, has_all-Covers ks bs cs covers rest)

pub after_metadata-keys :
    (now : String) (reply : Result String Metadata) (targets : List String) (bs : Blocks)
    → keys (after_metadata now reply targets bs) ≡ keys bs
after_metadata-keys now (err e) targets bs = keys-modify_all targets _ bs
after_metadata-keys now (ok m) targets bs = elim (Bool-cases (is_complete m)) [
  | inl complete ↦
      rw complete
        (keys-modify "headings" _ _ ∙ (keys-modify "keywords" _ _ ∙ keys-modify "title" _ bs))
  | inr missing ↦ rw missing (keys-modify_all targets (failed_with missing_metadata) bs)
]

pub run_sections-keys :
    (now : String) (answers : String → Result String String) (bs : Blocks)
    → keys (run_sections now answers bs).0 ≡ keys bs
unfolding run_sections
run_sections-keys now answers bs =
    elim (Bool-cases (any (is_section_target bs) (map (λ p. p.1) bs))) [
      | inl e ↦ rw (e, run_sections) (keys-map_blocks _ bs)
      | inr e ↦ rw (e, run_sections) refl
    ]
