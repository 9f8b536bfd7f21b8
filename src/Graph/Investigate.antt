-- ===== src/Graph/Investigate.antt =====
-- packages/payops_core/graph/nodes.py: `investigate_node` and its loop over the pending tasks.
pub mod Rounds
use payops_intelligence.Prelude.{
  ℕ, zero, suc, ◌+◌, Bool, true, false, Option, none, some, List, [], ◌∷◌, ◌++◌, map, String, ◌<>◌,
  take_text, join, if◌then◌else◌,
}
use payops_intelligence.Graph.Types.{
  Task, label, EvidenceItem, TraceEvent, RagResult, RetrievalSummary,
}
use payops_intelligence.Graph.Agents.{Attempt, gave, raised, Agents, Runtime}
use payops_intelligence.Graph.State.{InvestigationState, safe_trace}
use payops_intelligence.Graph.Tasks.{Found, run_task, rag_traces, retrieval_summary, merge_evidence}

unfoldable pub ids : List EvidenceItem → List String
ids items = map (λ item. item.evidence_id) items

-- The local variables of the loop.
pub record Progress (A : Agents) : Type 0 where
  pub evidence : List EvidenceItem
  pub metrics : List A.Metric
  pub retrieval : Option RetrievalSummary
  pub traces : List TraceEvent
  pub completed : List String
  pub failures : List String

-- How the loop ends: after the last task, or at a timeout with the tasks that are left; with the
-- number of clock readings made.
pub data LoopEnd (A : Agents) : Type 0 where
  finished : Progress A → ℕ → LoopEnd A
  interrupted : List Task → Progress A → ℕ → LoopEnd A

unfoldable pub rag_events : Option RagResult → List TraceEvent
unfolding rag_traces
rag_events none = []
rag_events (some rag) = rag_traces rag

unfoldable pub summary_or : Option RagResult → Option RetrievalSummary → Option RetrievalSummary
unfolding retrieval_summary
summary_or none old = old
summary_or (some rag) old = some (retrieval_summary rag)

module _ {A : Agents} (runtime : Runtime A) where
  -- One task: its result is merged, or its exception noted.
  unfoldable pub absorb : Task → Attempt (Found A) → Progress A → Progress A
  unfolding safe_trace merge_evidence rag_events summary_or ids label
  absorb task (raised name text) p = record p {
    failures =
        p.failures ++ take_text 180 (label task.task_type <> ":" <> name <> ": " <> text) ∷ [];
    traces =
        p.traces
        ++ safe_trace "investigate" "failed" (some (label task.task_type)) task.query []
            (some "failed") none
          ∷ [];
  }
  absorb task (gave f) p = record p {
    evidence = merge_evidence p.evidence f.items;
    metrics = p.metrics ++ f.metrics;
    retrieval = summary_or f.rag p.retrieval;
    completed = p.completed ++ task.task_id ∷ [];
    traces =
        p.traces
        ++ (rag_events f.rag
            ++ safe_trace "investigate" "run_task" (some f.tool) f.query (ids f.items)
                (some (label task.task_type)) none
              ∷ []);
  }

  -- `for index, task in enumerate(pending)`
  unfoldable pub task_loop : InvestigationState A → List Task → ℕ → Progress A → LoopEnd A
  unfolding absorb run_task
  task_loop s [] n p = finished p n
  task_loop s (task ∷ pending) n p =
      let rest = task_loop s pending (n + 1) (absorb task (run_task s task) p) in
      if runtime.expired n then interrupted (task ∷ pending) p (n + 1) else rest

  unfoldable pub timeout_event : TraceEvent
  unfolding safe_trace
  timeout_event = safe_trace "investigate" "timeout" none none [] (some "timeout") none

  -- `"; ".join(failures) if failures and not completed else state.get("error")`
  unfoldable pub error_of : List String → List String → Option String → Option String
  error_of [] completed old = old
  error_of (f ∷ failures) [] old = some (join "; " (f ∷ failures))
  error_of (f ∷ failures) (c ∷ completed) old = old

  -- The dictionaries that the node returns after its loop.
  unfoldable pub conclude : LoopEnd A → InvestigationState A → InvestigationState A
  unfolding timeout_event error_of
  conclude (finished p n) s = record s {
    iteration = s.iteration + 1;
    pending_tasks = [];
    completed_task_ids = s.completed_task_ids ++ p.completed;
    evidence = p.evidence;
    metrics = p.metrics;
    retrieval = p.retrieval;
    error = error_of p.failures p.completed s.error;
    trace = s.trace ++ p.traces;
    readings = n;
  }
  conclude (interrupted pending p n) s = record s {
    iteration = s.iteration + 1;
    timed_out = true;
    pending_tasks = pending;
    completed_task_ids = s.completed_task_ids ++ p.completed;
    evidence = p.evidence;
    metrics = p.metrics;
    trace = s.trace ++ (p.traces ++ timeout_event ∷ []);
    readings = n;
  }

  abbrev pub no_progress : InvestigationState A → Progress A
  no_progress s = record {
    evidence = s.evidence;
    metrics = s.metrics;
    retrieval = s.retrieval;
    traces = [];
    completed = [];
    failures = [];
  }

  unfoldable pub work : List Task → InvestigationState A → InvestigationState A
  unfolding conclude task_loop safe_trace
  work [] s = record s {
    iteration = s.iteration + 1;
    trace =
        s.trace ++ safe_trace "investigate" "skip" none none [] (some "no_pending_tasks") none ∷ [];
    readings = s.readings + 1;
  }
  work (task ∷ pending) s =
      conclude (task_loop s (task ∷ pending) (s.readings + 1) (no_progress s)) s

  unfoldable pub investigate_node : InvestigationState A → InvestigationState A
  unfolding work timeout_event
  investigate_node s =
      if runtime.expired s.readings
      then record s {
        iteration = s.iteration + 1;
        timed_out = true;
        pending_tasks = [];
        trace = s.trace ++ timeout_event ∷ [];
        readings = s.readings + 1;
      }
      else work s.pending_tasks s
