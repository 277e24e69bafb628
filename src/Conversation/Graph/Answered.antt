-- ===== src/Conversation/Graph/Answered.antt =====
-- The runs of the graph: they end, and the loop of searches is bounded.
use inuself.Base.{
  ℕ, zero, suc, ◌+◌, ◌*◌, ◌≤◌, ◌≡◌, refl, Bool, true, false, Option, some, List, [], ◌∷◌, count,
  ltb, arith, inl, inr, Bool-cases,
}
use inuself.Conversation.Graph.{
  AiMode, simple, search, rag, reasoning, hybrid, Node, intent_parser, searcher, search_evaluator,
  query_rewriter, fallback_handler, rag_retriever, reasoner, generator, reflector, GraphState,
  Choice, run_node, route_by_mode, unless_hybrid, route_after_evaluation, route_after_fallback,
  next_node, visits, run_graph,
}

abbrev pub is_search : Node → Bool
is_search searcher = true
is_search _ = false

-- The nodes that write an answer.
abbrev pub is_answer : Node → Bool
is_answer reasoner = true
is_answer generator = true
is_answer _ = false

-- The end is reached, with at most so many searches and one answer.
abbrev pub Answers : ℕ → Option (List Node) → Type 0
Answers searches o =
    (nodes : List Node) × (o ≡ some nodes)
    × (count is_search nodes ≤ searches)
    × (count is_answer nodes ≡ 1)

visits-Answers :
    (n : ℕ) (node : Node) (o : Option (List Node))
    → is_search node ≡ false
    → is_answer node ≡ false
    → Answers n o
    → Answers n (visits node o)
visits-Answers n node o a b (nodes, made, few, one) =
    rw made (node ∷ nodes, refl, ground (arith, a, few), ground (arith, b, one))

searched-Answers :
    (n : ℕ) (o : Option (List Node)) → Answers n o → Answers (suc n) (visits searcher o)
searched-Answers n o (nodes, made, few, one) =
    rw made (searcher ∷ nodes, refl, omega (arith, few), one)

fewer : (m n : ℕ) (o : Option (List Node)) → m ≤ n → Answers m o → Answers n o
fewer m n o le (nodes, made, few, one) = (nodes, made, omega (arith, few, le), one)

-- Steps that are enough after an evaluation, with so many retries left.
enough : ℕ → ℕ → ℕ
enough zero k = suc (suc (suc (suc k)))
enough (suc left) k = suc (suc (suc (enough left k)))

enough_lem : (left k : ℕ) → enough left k ≡ 3 * left + 4 + k
unfolding enough
enough_lem zero k = omega arith
enough_lem (suc left) k = omega (arith, enough_lem left k)

four_left : (left k : ℕ) → (m : ℕ) × (enough left k ≡ suc (suc (suc (suc m))))
unfolding enough
four_left zero k = (k, refl)
four_left (suc left) k = (3 * left + 3 + k, omega (arith, enough_lem left k))

route_fine :
    (n : ℕ) (s : GraphState)
    → s.needs_retry ≡ false
    → route_after_evaluation n s ≡ unless_hybrid s.mode generator
unfolding route_after_evaluation
route_fine n s fine = rw (route_after_evaluation, fine)

route_again :
    (n : ℕ) (s : GraphState)
    → s.needs_retry ≡ true
    → ltb s.search_retry_count n ≡ true
    → route_after_evaluation n s ≡ query_rewriter
unfolding route_after_evaluation
route_again n s retry budget = rw (route_after_evaluation, retry, budget)

route_given_up :
    (n : ℕ) (s : GraphState)
    → s.needs_retry ≡ true
    → ltb s.search_retry_count n ≡ false
    → route_after_evaluation n s ≡ unless_hybrid s.mode fallback_handler
unfolding route_after_evaluation
route_given_up n s retry budget = rw (route_after_evaluation, retry, budget)

module _ (script : ℕ → Choice) (max_retries : ℕ) (reflect : Bool) where
  generator-Answers :
      (k : ℕ) (s : GraphState)
      → Answers 0 (run_graph script max_retries reflect (suc (suc k)) generator s)
  unfolding run_graph run_node next_node
  generator-Answers k s = elim (Bool-cases reflect) [
    | inl reflects ↦
        rw (run_graph, next_node, reflects) (generator ∷ reflector ∷ [], refl, omega arith, refl)
    | inr plain ↦ rw (run_graph, next_node, plain) (generator ∷ [], refl, omega arith, refl)
  ]

  reasoner-Answers :
      (k : ℕ) (s : GraphState)
      → Answers 0 (run_graph script max_retries reflect (suc (suc k)) reasoner s)
  unfolding run_graph run_node next_node
  reasoner-Answers k s = elim (Bool-cases reflect) [
    | inl reflects ↦
        rw (run_graph, next_node, reflects) (reasoner ∷ reflector ∷ [], refl, omega arith, refl)
    | inr plain ↦ rw (run_graph, next_node, plain) (reasoner ∷ [], refl, omega arith, refl)
  ]

  rag-Answers :
      (k : ℕ) (s : GraphState)
      → Answers 0 (run_graph script max_retries reflect (suc (suc (suc k))) rag_retriever s)
  unfolding run_graph run_node next_node
  rag-Answers k s = visits-Answers 0 rag_retriever _ refl refl (generator-Answers k s)

  after_fallback-Answers :
      (k : ℕ) (mode : AiMode) (s : GraphState)
      → Answers 0
          (run_graph script max_retries reflect (suc (suc (suc k))) (route_after_fallback mode) s)
  unfolding route_after_fallback
  after_fallback-Answers k rag s = rag-Answers k s
  after_fallback-Answers k simple s = generator-Answers (suc k) s
  after_fallback-Answers k search s = generator-Answers (suc k) s
  after_fallback-Answers k reasoning s = generator-Answers (suc k) s
  after_fallback-Answers k hybrid s = generator-Answers (suc k) s

  fallback-Answers :
      (k : ℕ) (s : GraphState)
      → Answers 0
          (run_graph script max_retries reflect (suc (suc (suc (suc k)))) fallback_handler s)
  unfolding run_graph run_node next_node
  fallback-Answers k s =
      visits-Answers 0 fallback_handler _ refl refl (after_fallback-Answers k _ _)

  unless_hybrid-Answers :
      (k : ℕ) (mode : AiMode) (node : Node) (s : GraphState)
      → Answers 0 (run_graph script max_retries reflect (suc (suc (suc (suc k)))) node s)
      → Answers 0 (
          run_graph script max_retries reflect
            (suc (suc (suc (suc k))))
            (unless_hybrid mode node)
            s)
  unless_hybrid-Answers k hybrid node s h = rag-Answers (suc k) s
  unless_hybrid-Answers k simple node s h = h
  unless_hybrid-Answers k search node s h = h
  unless_hybrid-Answers k rag node s h = h
  unless_hybrid-Answers k reasoning node s h = h

  done-Answers :
      (left k : ℕ) (mode : AiMode) (node : Node) (s : GraphState)
      → ((m : ℕ)
          → Answers 0 (run_graph script max_retries reflect (suc (suc (suc (suc m)))) node s))
      → Answers left
          (run_graph script max_retries reflect (enough left k) (unless_hybrid mode node) s)
  done-Answers left k mode node s h =
      let (m, made) = four_left left k in
      fewer 0 left _ (omega arith) (rw made (unless_hybrid-Answers m mode node s (h m)))

  judged : ℕ → GraphState → GraphState
  judged steps s = record s { needs_retry = (script steps).needs_retry }

  fine-Answers :
      (left k : ℕ) (s : GraphState)
      → s.needs_retry ≡ false
      → Answers left (
          run_graph script max_retries reflect
            (enough left k)
            (route_after_evaluation max_retries s)
            s)
  fine-Answers left k s fine =
      rw (route_fine max_retries s fine)
        (done-Answers left k s.mode generator s (λ m. generator-Answers (suc (suc m)) s))

  given_up-Answers :
      (left k : ℕ) (s : GraphState)
      → s.needs_retry ≡ true
      → ltb s.search_retry_count max_retries ≡ false
      → Answers left (
          run_graph script max_retries reflect
            (enough left k)
            (route_after_evaluation max_retries s)
            s)
  given_up-Answers left k s retry spent =
      rw (route_given_up max_retries s retry spent)
        (done-Answers left k s.mode fallback_handler s (λ m. fallback-Answers m s))

  again-Answers :
      (n steps : ℕ) (s : GraphState)
      → s.needs_retry ≡ true
      → ltb s.search_retry_count max_retries ≡ true
      → Answers n (run_graph script max_retries reflect steps query_rewriter s)
      → Answers n
          (run_graph script max_retries reflect steps (route_after_evaluation max_retries s) s)
  again-Answers n steps s retry budget h = rw (route_again max_retries s retry budget) h

  evaluated-Answers :
      (left k : ℕ) (s : GraphState)
      → s.search_retry_count + left ≡ max_retries
      → Answers left (run_graph script max_retries reflect (suc (enough left k)) search_evaluator s)
  unfolding run_graph run_node next_node judged enough
  evaluated-Answers zero k s budget =
      visits-Answers 0 search_evaluator _ refl refl
        (elim (Bool-cases (script (enough zero k)).needs_retry) [
          | inl retry ↦
              given_up-Answers zero k (judged (enough zero k) s) retry (ground (arith, budget))
          | inr fine ↦ fine-Answers zero k (judged (enough zero k) s) fine
        ])
  evaluated-Answers (suc left) k s budget =
      visits-Answers (suc left) search_evaluator _ refl refl
        (elim (Bool-cases (script (enough (suc left) k)).needs_retry) [
          | inl retry ↦
              again-Answers (suc left) (enough (suc left) k) (judged (enough (suc left) k) s) retry
                (ground (arith, budget))
                (visits-Answers (suc left) query_rewriter _ refl refl (
                  searched-Answers left _ (
                    evaluated-Answers left k
                      (record (judged (enough (suc left) k) s) {
                        search_retry_count = s.search_retry_count + 1;
                      })
                      (omega (arith, budget)))))
          | inr fine ↦ fine-Answers (suc left) k (judged (enough (suc left) k) s) fine
        ])

  searcher-Answers :
      (k : ℕ) (s : GraphState)
      → s.search_retry_count ≡ 0
      → Answers
          (suc max_retries)
          (run_graph script max_retries reflect (suc (suc (enough max_retries k))) searcher s)
  unfolding run_graph run_node next_node
  searcher-Answers k s fresh =
      searched-Answers max_retries _ (evaluated-Answers max_retries k s (omega (arith, fresh)))

  routed-Answers :
      (k : ℕ) (mode : AiMode) (s : GraphState)
      → s.search_retry_count ≡ 0
      → Answers (suc max_retries) (
          run_graph script max_retries reflect
            (suc (suc (enough max_retries k)))
            (route_by_mode mode)
            s)
  unfolding route_by_mode
  routed-Answers k search s fresh = searcher-Answers k s fresh
  routed-Answers k hybrid s fresh = searcher-Answers k s fresh
  routed-Answers k rag s fresh =
      let (m, made) = four_left max_retries k in
      fewer 0 (suc max_retries) _ (omega arith) (rw made (rag-Answers (suc (suc (suc m))) s))
  routed-Answers k reasoning s fresh =
      fewer 0 (suc max_retries) _ (omega arith) (reasoner-Answers (enough max_retries k) s)
  routed-Answers k simple s fresh =
      fewer 0 (suc max_retries) _ (omega arith) (generator-Answers (enough max_retries k) s)

  parsed-Answers :
      (k : ℕ) (s : GraphState)
      → s.search_retry_count ≡ 0
      → Answers (suc max_retries) (
          run_graph script max_retries reflect
            (suc (suc (suc (enough max_retries k))))
            intent_parser
            s)
  unfolding run_graph run_node next_node
  parsed-Answers k s fresh =
      visits-Answers (suc max_retries) intent_parser _ refl refl (routed-Answers k _ _ fresh)

-- Whatever its nodes decide, the graph comes to its end from a state with no retries counted, within
-- seven steps and three for each retry that is allowed; it searches at most once more than it may
-- retry, and exactly one node writes an answer.
pub run_graph-Answers :
    (script : ℕ → Choice) (max_retries : ℕ) (reflect : Bool) (k : ℕ) (s : GraphState)
    → s.search_retry_count ≡ 0
    → Answers
        (max_retries + 1)
        (run_graph script max_retries reflect (3 * max_retries + 7 + k) intent_parser s)
run_graph-Answers script max_retries reflect k s fresh =
    let steps : suc (suc (suc (enough max_retries k))) ≡ 3 * max_retries + 7 + k =
      omega (arith, enough_lem max_retries k) in
    let searches : suc max_retries ≡ max_retries + 1 = omega arith in
    rw (← steps, ← searches) (parsed-Answers script max_retries reflect k s fresh)
