-- ===== src/Content/Blocks/RoundTrip.antt =====
-- The JSON of a state, read back.
use mathlib.Core.List.{append_assoc, append-nil}
use inuself.Base.{
  ℕ, ◌*◌, ◌/◌, String, ◌≡◌, refl, sym, ap, ◌∙◌, false, Option, none, some, List, [], ◌∷◌, ◌++◌,
  ◌==◌, String_eq, ==_iff, elem, Dict, insert, keys, ok, arith,
}
use inuself.Content.Blocks.{
  BlockStatus, pending, success, failed, BlockState, SectionsState, status_value, status_of,
  nullable, as_nullable, texts, texts_of, block_to_dict, block_from_dict, blocks_to_dict,
  blocks_from_dict, to_dict, from_dict,
}

status_value-status_of : (s : BlockStatus) → status_of (status_value s) ≡ some s
status_value-status_of pending = refl
status_value-status_of success = refl
status_value-status_of failed = refl

thousandths : (n : ℕ) → n * 1000 / 1000 ≡ n
thousandths n = omega arith

nullable-as_nullable : (o : Option String) → as_nullable (nullable o) ≡ some o
nullable-as_nullable none = refl
nullable-as_nullable (some s) = refl

texts-texts_of : (ss : List String) → texts_of (texts ss) ≡ some ss
texts-texts_of [] = refl
texts-texts_of (s ∷ ss) = rw (texts-texts_of ss) refl

block_from_dict-block_to_dict : (b : BlockState) → block_from_dict (block_to_dict b) ≡ ok b
unfolding block_from_dict
block_from_dict-block_to_dict b = rw (status_value-status_of b.status) (
    rw (nullable-as_nullable b.last_error) (
      rw (texts-texts_of b.depends_on) (
        rw (nullable-as_nullable b.completed_at)
          (ap (λ n. ok (record b { attempts = n })) (thousandths b.attempts)))))

-- Each block stands under its key, and no key twice.
abbrev pub Keyed : Dict String BlockState → Type 0
Keyed [] = Unit
Keyed ((k, b) ∷ bs) = (b.key ≡ k) × (elem k (keys bs) ≡ false) × Keyed bs

-- A new key goes to the end.
insert-new :
    (k : String) (b : BlockState) (bs : Dict String BlockState)
    → elem k (keys bs) ≡ false
    → insert k b bs ≡ bs ++ ((k, b) ∷ [])
insert-new k b [] fresh = refl
insert-new k b ((j, c) ∷ bs) fresh =
    let (other, rest) : ((j == k) ≡ false) × (elem k (keys bs) ≡ false) = ground (arith, fresh) in
    rw other (ap (λ cs. (j, c) ∷ cs) (insert-new k b bs rest))

keys-append :
    (bs cs : Dict String BlockState) (k : String)
    → elem k (keys bs) ≡ false
    → elem k (keys cs) ≡ false
    → elem k (keys (bs ++ cs)) ≡ false
keys-append [] cs k left right = right
keys-append ((j, b) ∷ bs) cs k left right = ground (arith, keys-append bs cs k, left, right)

-- No key of the second list is among the first's.
Apart : Dict String BlockState → Dict String BlockState → Type 0
Apart bs [] = Unit
Apart bs ((k, b) ∷ cs) = (elem k (keys bs) ≡ false) × Apart bs cs

Apart-grown :
    (bs cs : Dict String BlockState) (k : String) (b : BlockState)
    → elem k (keys cs) ≡ false
    → Apart bs cs
    → Apart (bs ++ ((k, b) ∷ [])) cs
unfolding Apart
Apart-grown bs [] k b fresh apart = tt
Apart-grown bs ((j, c) ∷ cs) k b fresh (here, apart) =
    let (other, rest) : ((k == j) ≡ false) × (elem k (keys cs) ≡ false) =
      ground (arith, fresh, ==_iff j k, ==_iff k j) in
    (keys-append bs ((k, b) ∷ []) j here (rw other refl), Apart-grown bs cs k b rest apart)

Apart-nil : (cs : Dict String BlockState) → Apart [] cs
unfolding Apart
Apart-nil [] = tt
Apart-nil ((k, c) ∷ cs) = (refl, Apart-nil cs)

blocks_from_dict-blocks_to_dict :
    (cs bs : Dict String BlockState)
    → Keyed cs
    → Apart bs cs
    → blocks_from_dict (blocks_to_dict cs) bs ≡ ok (bs ++ cs)
unfolding Apart
blocks_from_dict-blocks_to_dict [] bs keyed apart = ap ok (sym (append-nil bs))
blocks_from_dict-blocks_to_dict ((k, c) ∷ cs) bs (named, fresh, keyed) (here, apart) =
    rw (block_from_dict-block_to_dict c) (
      ap (blocks_from_dict (blocks_to_dict cs))
        (ap (λ j. insert j c bs) named ∙ insert-new k c bs here)
      ∙ (blocks_from_dict-blocks_to_dict cs (bs ++ ((k, c) ∷ [])) keyed
            (Apart-grown bs cs k c fresh apart)
          ∙ ap ok (append_assoc bs ((k, c) ∷ []) cs)))

-- A state whose blocks stand under their keys, each key once, is read back from its JSON as it was.
pub from_dict-to_dict : (s : SectionsState) → Keyed s.blocks → from_dict (to_dict s) ≡ ok s
unfolding from_dict to_dict
from_dict-to_dict s keyed =
    rw (blocks_from_dict-blocks_to_dict s.blocks [] keyed (Apart-nil s.blocks))
      (ap (λ n. ok (record s { round = n })) (thousandths s.round))
