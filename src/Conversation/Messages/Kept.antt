-- ===== src/Conversation/Messages/Kept.antt =====
-- What a guarded update leaves alone.
use inuself.Base.{
  ℕ, ◌≡◌, ◌⊎◌, refl, sym, ap, ◌∙◌, Bool, true, false, some, ◌==◌, ℕ_eq, String_eq, ==_iff, ==_refl,
  arith, inl, inr, Bool-cases, Option-cases,
}
use inuself.Conversation.Messages.{Message, Messages, update_where, put_row}

-- A row that the test refuses, or of another message, is as it was.
pub update_where-kept :
    (i j : ℕ) (test : Message → Bool) (change : Message → Message) (t : Messages) (m : Message)
    → t j ≡ some m
    → ((i == j) ≡ false) ⊎ (test m ≡ false)
    → (update_where i test change t).0 j ≡ some m
unfolding update_where
update_where-kept i j test change t m at spared = elim (Option-cases (t i)) [
  | inl miss ↦ rw (miss, update_where) at
  | inr (n, found) ↦ elim (Bool-cases (test n)) [
    | inr refused ↦ rw (found, update_where, refused) at
    | inl passed ↦ rw (found, update_where, passed) (go n found passed spared)
  ]
]
  where
    go :
        (n : Message)
        → t i ≡ some n
        → test n ≡ true
        → ((i == j) ≡ false) ⊎ (test m ≡ false)
        → put_row i (some (change n)) t j ≡ some m
    go n found passed (inl other) = rw other at
    go n found passed (inr refused) = elim (Bool-cases (i == j)) [
      | inr other ↦ rw other at
      | inl same ↦
          let is_j : i ≡ j = (==_iff i j).0 same in let same_row : n ≡ m = cc in absurd (cc)
    ]

-- An update that changed a row changed that of the message, which passed the test.
pub update_where-done :
    (i : ℕ) (test : Message → Bool) (change : Message → Message) (t t' : Messages)
    → update_where i test change t ≡ (t', true)
    → (m : Message) × (t i ≡ some m) × (test m ≡ true) × (t' i ≡ some (change m))
unfolding update_where
update_where-done i test change t t' e = elim (Option-cases (t i)) [
  | inl miss ↦ absurd (ground (arith, miss))
  | inr (m, found) ↦ elim (Bool-cases (test m)) [
    | inr refused ↦ absurd (ground (arith, found, refused))
    | inl passed ↦
        let same : put_row i (some (change m)) t ≡ t' = ground (arith, found, passed) in
        (m, found, passed, sym (ap (λ u. u i) same) ∙ rw (==_refl i) refl)
  ]
]
