-- ===== src/Conversation/Graph/Tests.antt =====
-- A search whose results are never good enough, with one retry allowed.
use inuself.Base.{ℕ, ◌≡◌, refl, true, false, some, [], ◌∷◌}
use inuself.Conversation.Graph.{
  simple, search, intent_parser, searcher, search_evaluator, query_rewriter, fallback_handler,
  rag_retriever, generator, GraphState, Choice, run_node, route_by_mode, route_after_evaluation,
  route_after_fallback, next_node, run_graph,
}
use inuself.Conversation.Graph.Answered.{Answers, run_graph-Answers}

abbrev hopeless : ℕ → Choice
hopeless steps = record { mode = search; needs_retry = true; to_rag = true }

abbrev fresh : GraphState
fresh = record { mode = simple; needs_retry = false; search_retry_count = 0 }

falls_back :
    run_graph hopeless 1 false 10 intent_parser fresh
    ≡ some (
        intent_parser ∷ searcher ∷ search_evaluator ∷ query_rewriter ∷ searcher ∷ search_evaluator
        ∷ fallback_handler ∷ rag_retriever ∷ generator ∷ [])
unfolding run_graph run_node next_node route_by_mode route_after_evaluation route_after_fallback
falls_back = refl

run_graph-Answers_example : Answers 2 (run_graph hopeless 1 false 10 intent_parser fresh)
run_graph-Answers_example = run_graph-Answers hopeless 1 false 0 fresh refl
