-- ===== src/Conversation/Graph.antt =====
-- backend/app/agents/graph.py, create_ai_graph_with_retry: the graph of the agent's nodes with its
-- loop of searches. Of the state there are the three fields that the routes read; what a node
-- decides about them is a script, by the number of the steps that are left. The nodes that set them
-- are in backend/app/agents/nodes. The limit on steps that langgraph has itself is not modelled: with
-- the default of three retries a run takes sixteen steps at most.
pub mod Answered
pub mod Tests
use inuself.Base.{
  ℕ, zero, suc, ◌+◌, Bool, true, false, Option, none, some, List, [], ◌∷◌, ltb, if◌then◌else◌,
}

pub data AiMode : Type 0 where
  simple search rag reasoning hybrid : AiMode

pub data Node : Type 0 where
  intent_parser searcher search_evaluator query_rewriter fallback_handler : Node
  rag_retriever reasoner generator reflector : Node

pub record GraphState : Type 0 where
  pub mode : AiMode
  pub needs_retry : Bool
  pub search_retry_count : ℕ

-- The mode of a query, whether a search has to be tried again, and whether the fallback turns to the
-- documents.
pub record Choice : Type 0 where
  pub mode : AiMode
  pub needs_retry : Bool
  pub to_rag : Bool

unfoldable pub run_node : Choice → Node → GraphState → GraphState
run_node choice intent_parser s = record s { mode = choice.mode }
run_node choice search_evaluator s = record s { needs_retry = choice.needs_retry }
run_node choice query_rewriter s = record s { search_retry_count = s.search_retry_count + 1 }
run_node choice fallback_handler s = record s { mode = if choice.to_rag then rag else s.mode }
run_node choice _ s = s

unfoldable pub route_by_mode : AiMode → Node
route_by_mode search = searcher
route_by_mode hybrid = searcher
route_by_mode rag = rag_retriever
route_by_mode reasoning = reasoner
route_by_mode simple = generator

-- The node that a finished or given up search goes on to.
abbrev pub unless_hybrid : AiMode → Node → Node
unless_hybrid hybrid node = rag_retriever
unless_hybrid _ node = node

unfoldable pub route_after_evaluation : ℕ → GraphState → Node
route_after_evaluation max_retries s =
    if s.needs_retry
    then (if ltb s.search_retry_count max_retries
        then query_rewriter
        else unless_hybrid s.mode fallback_handler)
    else unless_hybrid s.mode generator

unfoldable pub route_after_fallback : AiMode → Node
route_after_fallback rag = rag_retriever
route_after_fallback _ = generator

-- The node after one, at the state that it leaves; none is the end.
unfoldable pub next_node : ℕ → Bool → Node → GraphState → Option Node
next_node max_retries enable_reflection intent_parser s = some (route_by_mode s.mode)
next_node max_retries enable_reflection searcher s = some search_evaluator
next_node max_retries enable_reflection search_evaluator s =
    some (route_after_evaluation max_retries s)
next_node max_retries enable_reflection query_rewriter s = some searcher
next_node max_retries enable_reflection fallback_handler s = some (route_after_fallback s.mode)
next_node max_retries enable_reflection rag_retriever s = some generator
next_node max_retries enable_reflection reasoner s =
    if enable_reflection then some reflector else none
next_node max_retries enable_reflection generator s =
    if enable_reflection then some reflector else none
next_node max_retries enable_reflection reflector s = none

abbrev pub visits : Node → Option (List Node) → Option (List Node)
visits node none = none
visits node (some nodes) = some (node ∷ nodes)

-- The nodes that are visited, if the end is reached in so many steps.
unfoldable pub run_graph : (ℕ → Choice) → ℕ → Bool → ℕ → Node → GraphState → Option (List Node)
run_graph script max_retries reflect zero node s = none
run_graph script max_retries reflect (suc steps) node s =
    let after = run_node (script steps) node s in
    elim (next_node max_retries reflect node after) [
      | none ↦ some (node ∷ [])
      | some next ↦ visits node (run_graph script max_retries reflect steps next after)
    ]
