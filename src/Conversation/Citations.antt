-- ===== src/Conversation/Citations.antt =====
-- backend/app/utils/citation_manager.py: the citations of an answer. The numbers that the regular
-- expression finds in its text are an argument.
pub mod Listed
pub mod Tests
use Prim.Native.String.{[] as nil, ◌∷◌ as cons}
use inuself.Base.{
  ℕ, zero, suc, ◌-◌, String, Bool, true, false, ◌&&◌, Option, none, some, List, [], ◌∷◌, ◌==◌, ℕ_eq,
  Dict, insert, lookup, length, get_elem?, ltb, leb, or_default, or_fail, Result, ok, err, ◌>>=◌,
  if◌then◌else◌,
}

-- A search result, by its `get`.
pub record Source : Type 0 where
  pub title : Option String
  pub url : Option String
  pub snippet : Option String

pub record Citation : Type 0 where
  pub id : ℕ
  pub title : String
  pub url : String
  pub snippet : String
  pub verified : Bool

-- `sorted(set(numbers))`.
abbrev pub insert_id : ℕ → List ℕ → List ℕ
insert_id n [] = n ∷ []
insert_id n (i ∷ is) =
    let rest = insert_id n is in if n == i then i ∷ is else if ltb n i then n ∷ i ∷ is else i ∷ rest

abbrev pub extract : List ℕ → List ℕ
extract [] = []
extract (n ∷ ns) = insert_id n (extract ns)

abbrev pub is_valid : ℕ → List Source → Bool
is_valid cid sources = leb 1 cid && leb cid (length sources)

abbrev pub verify_from : Dict ℕ Bool → List ℕ → List Source → Dict ℕ Bool
verify_from d [] sources = d
verify_from d (cid ∷ cids) sources = verify_from (insert cid (is_valid cid sources) d) cids sources

unfoldable pub verify : List ℕ → List Source → Dict ℕ Bool
verify citation_ids sources = verify_from [] citation_ids sources

-- `sorted(numbers)`.
abbrev pub insert_sorted : ℕ → List ℕ → List ℕ
insert_sorted n [] = n ∷ []
insert_sorted n (i ∷ is) = let rest = insert_sorted n is in if leb n i then n ∷ i ∷ is else i ∷ rest

abbrev pub sorted : List ℕ → List ℕ
sorted [] = []
sorted (n ∷ ns) = insert_sorted n (sorted ns)

-- `text[:n]`.
abbrev pub take_text : ℕ → String → String
take_text zero s = nil
take_text (suc n) nil = nil
take_text (suc n) (cons c s) = cons c (take_text n s)

abbrev pub unverified : ℕ → Citation
unverified cid = record { id = cid; title = "[출처 없음]"; url = ""; snippet = ""; verified = false }

abbrev pub cited : ℕ → Source → Citation
cited cid source = record {
  id = cid;
  title = or_default source.title "제목 없음";
  url = or_default source.url "";
  snippet = take_text 200 (or_default source.snippet "");
  verified = true;
}

-- The loop of `build`; an error is an IndexError.
abbrev pub build_each : List ℕ → List Source → Dict ℕ Bool → Result (Unit {0}) (List Citation)
build_each [] sources verification = ok []
build_each (cid ∷ cids) sources verification = do
  here ←
      if or_default (lookup cid verification) false
      then (do source ← or_fail (get_elem? sources (cid - 1)) tt; ok (cited cid source))
      else ok (unverified cid)
  rest ← build_each cids sources verification
  ok (here ∷ rest)

unfoldable pub build : List ℕ → List Source → Dict ℕ Bool → Result (Unit {0}) (List Citation)
build citation_ids sources verification = build_each (sorted citation_ids) sources verification

-- Without numbers the list is empty too.
unfoldable pub process : List ℕ → List Source → Result (Unit {0}) (List Citation)
process numbers sources = build (extract numbers) sources (verify (extract numbers) sources)
