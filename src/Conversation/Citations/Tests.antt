-- ===== src/Conversation/Citations/Tests.antt =====
-- An answer that cites its second source twice, and one that it does not have.
use inuself.Base.{ℕ, ◌≡◌, refl, none, some, List, [], ◌∷◌, map, elem, ℕ_eq, ok}
use inuself.Conversation.Citations.{Source, extract, process, build, verify, cited, unverified}
use inuself.Conversation.Citations.Listed.{citation_of, Above, process-citation_of}

abbrev second : Source
second = record { title = some "B"; url = some "b"; snippet = none }

abbrev found : List Source
found = record { title = some "A"; url = some "a"; snippet = none } ∷ second ∷ []

abbrev numbers : List ℕ
numbers = 2 ∷ 9 ∷ 2 ∷ []

processes : process numbers found ≡ ok (cited 2 second ∷ unverified 9 ∷ [])
unfolding process build verify
processes = refl

process-citation_of_example :
    (process numbers found ≡ ok (map (citation_of found) (extract numbers)))
    × Above 0 (extract numbers)
    × ((k : ℕ) → elem k (extract numbers) ≡ elem k numbers)
process-citation_of_example = process-citation_of numbers found
