-- ===== src/Graph/Tasks.antt =====
-- packages/payops_core/graph/nodes.py: `_run_task`, `_rag_traces`, `_retrieval_summary` and
-- `_merge_evidence`.
pub mod Merge
use payops_intelligence.Prelude.{
  ℕ, Bool, true, false, ◌&&◌, Option, none, some, List, [], ◌∷◌, ◌++◌, map, String, str_eq, ◌<>◌,
  show_nat, if◌then◌else◌,
}
use payops_intelligence.Graph.Types.{
  TaskType, retrieve_docs, query_metrics, inspect_webhooks, compare_merchants, merchant_health,
  score_risk, score_regression, validate_integrity, label, Task, TimeWindow, EvidenceItem,
  TraceEvent, RetrievalRound, RagResult, RetrievalSummary,
}
use payops_intelligence.Graph.Agents.{Attempt, gave, raised, Research, Inspection, Analysis, Agents}
use payops_intelligence.Graph.State.{InvestigationState, safe_trace}

-- `a or b` on optional texts: an empty text counts as missing.
unfoldable pub or_else : Option String → Option String → Option String
or_else none b = b
or_else (some a) b = if str_eq a "" then b else some a

unfoldable pub or_text : Option String → String → String
or_text none b = b
or_text (some a) b = if str_eq a "" then b else a

-- `state.get("time_window") or DEFAULT_WINDOW`
unfoldable pub window_or : Option TimeWindow → TimeWindow → TimeWindow
window_or none w = w
window_or (some w) _ = w

-- The tuple that `_run_task` returns.
pub record Found (A : Agents) : Type 0 where
  pub items : List EvidenceItem
  pub metrics : List A.Metric
  pub tool : String
  pub query : Option String
  pub rag : Option RagResult

unfoldable pub first_or : List String → Option String → Option String
first_or [] b = b
first_or (a ∷ texts) b = some a

-- `result.operations[0] if result.operations else default`
unfoldable pub operation_or : List String → String → String
operation_or [] default = default
operation_or (o ∷ operations) default = o

module _ {A : Agents} where
  unfoldable pub only : List EvidenceItem → String → Task → Found A
  only items tool task = record {
    items = items;
    metrics = [];
    tool = tool;
    query = task.query;
    rag = none;
  }

  -- Items of one tool, or its exception.
  unfoldable pub items_of : String → Task → Attempt (List EvidenceItem) → Attempt (Found A)
  unfolding only
  items_of tool task (gave items) = gave (only items tool task)
  items_of tool task (raised name text) = raised name text

  unfoldable pub health_of : Task → Attempt EvidenceItem → Attempt (Found A)
  unfolding only
  health_of task (gave item) = gave (only (item ∷ []) "merchant_health" task)
  health_of task (raised name text) = raised name text

  unfoldable pub research_of : Task → Attempt Research → Attempt (Found A)
  unfolding first_or
  research_of task (gave r) = gave (record {
    items = r.items;
    metrics = [];
    tool = "search_docs";
    query = first_or r.queries task.query;
    rag = r.rag;
  })
  research_of task (raised name text) = raised name text

  unfoldable pub analysis_of : Task → Attempt (Analysis A.Metric) → Attempt (Found A)
  unfolding operation_or
  analysis_of task (gave r) = gave (record {
    items = map A.metric_evidence r.metrics;
    metrics = r.metrics;
    tool = operation_or r.operations "sql_gateway";
    query = task.query;
    rag = none;
  })
  analysis_of task (raised name text) = raised name text

  unfoldable pub inspection_of : Task → Attempt Inspection → Attempt (Found A)
  unfolding operation_or only
  inspection_of task (gave r) =
      gave (only r.items (operation_or r.operations "webhook_gateway") task)
  inspection_of task (raised name text) = raised name text

  -- `if not merchant_id: raise ValueError(…)`
  unfoldable pub for_merchant :
      String → Option String → (String → Attempt (Found A)) → Attempt (Found A)
  for_merchant kind none run = raised "ValueError" (kind <> " requires a merchant_id")
  for_merchant kind (some m) run =
      if str_eq m "" then raised "ValueError" (kind <> " requires a merchant_id") else run m

  unfoldable pub run_task : InvestigationState A → Task → Attempt (Found A)
  unfolding or_else or_text window_or for_merchant items_of health_of research_of analysis_of
      inspection_of
  run_task s task =
      let merchant_id = or_else task.merchant_id s.merchant_id in
      let window = window_or s.time_window A.default_window in
      let query = or_text task.query s.question in
      elim task.task_type [
        | retrieve_docs ↦ research_of task (A.research query task)
        | merchant_health ↦
            for_merchant "merchant_health" merchant_id
              (λ m. health_of task (A.score_merchant m window))
        | score_risk ↦
            for_merchant "score_risk" merchant_id
              (λ m. items_of "ml_risk" task (A.run_classification m window))
        | score_regression ↦
            for_merchant "score_regression" merchant_id
              (λ m. items_of "ml_regression" task (A.run_regression m window))
        | validate_integrity ↦
            items_of "validate_integrity" task (A.check_integrity query window merchant_id task)
        | query_metrics ↦ analysis_of task (A.analyze query window merchant_id task.method_id task)
        | compare_merchants ↦
            analysis_of task (A.analyze query window merchant_id task.method_id task)
        | inspect_webhooks ↦ inspection_of task (A.inspect query window merchant_id task)
      ]

unfoldable pub search_event : RetrievalRound → TraceEvent
unfolding safe_trace
search_event step =
    safe_trace "investigate" "rag_search" (some "search_docs") (some step.query) step.evidence_ids
      (some ("search_" <> show_nat step.search_index <> ":" <> step.decision)) none

unfoldable pub rewrite_event : RetrievalRound → TraceEvent
unfolding safe_trace or_text
rewrite_event next =
    safe_trace "investigate" "rag_rewrite" (some "search_docs") (some next.query) []
      (some (or_text next.rewrite_reason "query rewritten")) none

-- The loop over `rag.rounds`: each search, and the rewrite that leads to the next.
unfoldable pub round_events : List RetrievalRound → List TraceEvent
unfolding search_event rewrite_event
round_events [] = []
round_events (step ∷ []) = search_event step ∷ []
round_events (step ∷ next ∷ rounds) =
    search_event step ∷ rewrite_event next ∷ round_events (next ∷ rounds)

unfoldable pub rag_traces : RagResult → List TraceEvent
unfolding round_events safe_trace
rag_traces rag =
    round_events rag.rounds
    ++ safe_trace "investigate" "rag_answer" (some "search_docs") none rag.citations
        (some (if rag.sources_verified && rag.sufficient then "grounded" else "insufficient")) none
      ∷ []

unfoldable pub retrieval_summary : RagResult → RetrievalSummary
retrieval_summary rag = record {
  iterations = rag.iterations;
  max_iterations = rag.max_iterations;
  sufficient = rag.sufficient;
  conflicting = rag.conflicting;
  conflict_note = rag.conflict_note;
  grounded_excerpt = rag.grounded_excerpt;
  citations = rag.citations;
  rounds = rag.rounds;
}

-- `known[item.evidence_id] = item` on a dictionary in insertion order.
unfoldable pub put_item : EvidenceItem → List EvidenceItem → List EvidenceItem
put_item item [] = item ∷ []
put_item item (old ∷ items) =
    if str_eq old.evidence_id item.evidence_id then item ∷ items else old ∷ put_item item items

unfoldable pub put_items : List EvidenceItem → List EvidenceItem → List EvidenceItem
unfolding put_item
put_items [] known = known
put_items (item ∷ items) known = put_items items (put_item item known)

-- `_merge_evidence`
unfoldable pub merge_evidence : List EvidenceItem → List EvidenceItem → List EvidenceItem
unfolding put_items
merge_evidence bundle items = put_items items (put_items bundle [])
