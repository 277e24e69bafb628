-- ===== src/Conversation/Citations/Listed.antt =====
-- Which citations an answer has.
use inuself.Base.{
  ℕ, zero, suc, ◌-◌, ◌≤◌, ◌≡◌, ◌⊎◌, refl, ap, ◌∙◌, Bool, true, false, ◌||◌, Option, none, some,
  List, [], ◌∷◌, map, ◌==◌, ℕ_eq, ==_iff, ==_refl, Dict, insert, lookup, lookup-insert, elem,
  length, get_elem?, ltb, leb, leb→le, or_fail, Result, ok, ◌>>=◌, arith, inl, inr, Bool-cases,
  if◌then◌else◌,
}
use inuself.Conversation.Citations.{
  Source, Citation, insert_id, extract, is_valid, verify_from, verify, insert_sorted, sorted, cited,
  unverified, build_each, build, process,
}

-- The first is above the bound, and each is below the next.
abbrev pub Above : ℕ → List ℕ → Type 0
Above low [] = Unit
Above low (n ∷ ns) = (low ≤ n) × Above (suc n) ns

-- The citation of a number: its source, counted from one, or none.
abbrev pub citation_of : List Source → ℕ → Citation
citation_of sources zero = unverified zero
citation_of sources (suc i) = elim (get_elem? sources i) [
  | none ↦ unverified (suc i)
  | some source ↦ cited (suc i) source
]

insert_id-Above : (low n : ℕ) (ns : List ℕ) → low ≤ n → Above low ns → Above low (insert_id n ns)
insert_id-Above low n [] le a = (le, tt)
insert_id-Above low n (i ∷ is) le (from, rest) = elim (Bool-cases (n == i)) [
  | inl same ↦ rw same (from, rest)
  | inr other ↦ elim (Bool-cases (ltb n i)) [
    | inl below ↦ rw other (rw below (le, (ground (arith, below), rest)))
    | inr above ↦
        rw other (rw above (from, insert_id-Above (suc i) n is (ground (arith, other, above)) rest))
  ]
]

extract-Above : (ns : List ℕ) → Above 0 (extract ns)
extract-Above [] = tt
extract-Above (n ∷ ns) = insert_id-Above 0 n (extract ns) (omega arith) (extract-Above ns)

elem-insert_id : (k n : ℕ) (ns : List ℕ) → elem k (insert_id n ns) ≡ (n == k || elem k ns)
elem-insert_id k n [] = refl
elem-insert_id k n (i ∷ is) =
    ground (arith, elem-insert_id k n is, ==_iff n i, ==_iff n k, ==_iff i k)

elem-extract : (k : ℕ) (ns : List ℕ) → elem k (extract ns) ≡ elem k ns
elem-extract k [] = refl
elem-extract k (n ∷ ns) =
    elem-insert_id k n (extract ns) ∙ ap (λ b. n == k || b) (elem-extract k ns)

insert_sorted-first :
    (low n : ℕ) (ns : List ℕ) → low ≤ n → Above (suc n) ns → insert_sorted n ns ≡ n ∷ ns
insert_sorted-first low n [] le a = refl
insert_sorted-first low n (i ∷ is) le (from, rest) =
    let below : leb n i ≡ true = ground (arith, from) in rw below refl

sorted-Above : (low : ℕ) (ns : List ℕ) → Above low ns → sorted ns ≡ ns
sorted-Above low [] a = refl
sorted-Above low (n ∷ ns) (from, rest) =
    ap (insert_sorted n) (sorted-Above (suc n) ns rest) ∙ insert_sorted-first low n ns from rest

lookup-verify_from :
    (k : ℕ) (d : Dict ℕ Bool) (cids : List ℕ) (sources : List Source)
    → lookup k (verify_from d cids sources)
      ≡ (if elem k cids then some (is_valid k sources) else lookup k d)
lookup-verify_from k d [] sources = refl
lookup-verify_from k d (cid ∷ cids) sources =
    lookup-verify_from k (insert cid (is_valid cid sources) d) cids sources
    ∙ go (Bool-cases (elem k cids)) (Bool-cases (cid == k))
  where
    here : Option Bool
    here = lookup k (insert cid (is_valid cid sources) d)

    go :
        ((elem k cids ≡ true) ⊎ (elem k cids ≡ false))
        → (((cid == k) ≡ true) ⊎ ((cid == k) ≡ false))
        → (if elem k cids then some (is_valid k sources) else here)
          ≡ (if cid == k || elem k cids then some (is_valid k sources) else lookup k d)
    go (inl later) (inl same) = rw later (rw same refl)
    go (inl later) (inr other) = rw later (rw other refl)
    go (inr last) (inl same) = rw last (
        rw same (
          lookup-insert cid k (is_valid cid sources) d
          ∙ rw same (ap (λ n. some (is_valid n sources)) ((==_iff cid k).0 same))))
    go (inr last) (inr other) =
        rw last (rw other (lookup-insert cid k (is_valid cid sources) d ∙ rw other refl))

get_elem?-within :
    (sources : List Source) (i : ℕ)
    → suc i ≤ length sources
    → (s : Source) × (get_elem? sources i ≡ some s)
get_elem?-within [] i le = absurd (omega (arith, le))
get_elem?-within (s ∷ ss) zero le = (s, refl)
get_elem?-within (s ∷ ss) (suc i) le = get_elem?-within ss i (omega (arith, le))

get_elem?-beyond : (sources : List Source) (i : ℕ) → length sources ≤ i → get_elem? sources i ≡ none
get_elem?-beyond [] i le = refl
get_elem?-beyond (s ∷ ss) zero le = absurd (omega (arith, le))
get_elem?-beyond (s ∷ ss) (suc i) le = get_elem?-beyond ss i (omega (arith, le))

-- One citation, as `build` makes it.
abbrev built : List Source → Bool → ℕ → Result (Unit {0}) Citation
built sources valid cid =
    if valid
    then (do source ← or_fail (get_elem? sources (cid - 1)) tt; ok (cited cid source))
    else ok (unverified cid)

built-citation_of :
    (sources : List Source) (cid : ℕ)
    → built sources (is_valid cid sources) cid ≡ ok (citation_of sources cid)
built-citation_of sources zero = refl
built-citation_of sources (suc i) =
    let positive : leb 1 (suc i) ≡ true = ground arith in
    let index : suc i - 1 ≡ i = omega arith in
    elim (Bool-cases (leb (suc i) (length sources))) [
      | inl within ↦
          let (s, found) = get_elem?-within sources i (leb→le (suc i) (length sources) within) in
          rw positive (rw within (rw index (rw (found, citation_of) refl)))
      | inr beyond ↦
          rw positive
            (rw beyond (rw (get_elem?-beyond sources i (ground (arith, beyond)), citation_of) refl))
    ]

build_each-citation_of :
    (cids : List ℕ) (sources : List Source) (verification : Dict ℕ Bool)
    → ((k : ℕ) → elem k cids ≡ true → lookup k verification ≡ some (is_valid k sources))
    → build_each cids sources verification ≡ ok (map (citation_of sources) cids)
build_each-citation_of [] sources verification known = refl
build_each-citation_of (cid ∷ cids) sources verification known =
    let first : lookup cid verification ≡ some (is_valid cid sources) =
      known cid (rw (==_refl cid) refl) in
    let rest =
      build_each-citation_of cids sources verification (λ k e. known k (ground (arith, e))) in
    rw first (rw (built-citation_of sources cid) (rw rest refl))

-- The citations of an answer are those of the numbers in its text, each once and in rising order:
-- the number's source, counted from one, or an unverified citation where there is no such source.
-- No index is out of range.
pub process-citation_of :
    (numbers : List ℕ) (sources : List Source)
    → (process numbers sources ≡ ok (map (citation_of sources) (extract numbers)))
      × Above 0 (extract numbers)
      × ((k : ℕ) → elem k (extract numbers) ≡ elem k numbers)
unfolding process build verify
process-citation_of numbers sources = (
  rw (sorted-Above 0 (extract numbers) (extract-Above numbers)) (
      build_each-citation_of (extract numbers) sources (verify (extract numbers) sources)
        (λ k e. lookup-verify_from k [] (extract numbers) sources ∙ rw e refl)),
  extract-Above numbers,
  λ k. elem-extract k numbers,
)
