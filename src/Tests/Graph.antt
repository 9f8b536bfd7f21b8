-- ===== src/Tests/Graph.antt =====
-- The investigation graph with concrete agents, and its theorems at concrete investigations.
use payops_intelligence.Prelude.{
  ℕ, ◌≡◌, ◌≢◌, refl, true, false, none, some, List, [], ◌∷◌, String, ltb, arith, ◌↔◌, join,
  take_text,
}
use payops_intelligence.Prelude.Lists.{filter, All}
use payops_intelligence.Graph.Types.{
  TaskType, retrieve_docs, query_metrics, Source, doc, metric, Task, InvestigationPlan,
  EvidenceItem,
}
use payops_intelligence.Graph.Agents.{gave, raised, Agents, Runtime}
use payops_intelligence.Graph.State.{InvestigationState, initial_state}
use payops_intelligence.Graph.Tasks.{merge_evidence}
use payops_intelligence.Graph.Tasks.Merge.{has_id, latest, as_list, filter-merge_evidence}
use payops_intelligence.Graph.Investigate.{investigate_node}
use payops_intelligence.Graph.Machine.{planner, critic, finish, maximum, walk}
use payops_intelligence.Graph.Machine.Termination.{walk-finish}
use payops_intelligence.Agents.Sufficiency.{evaluate}
use payops_intelligence.Agents.Sufficiency.Verdict.{HasEvidence, evaluate_sufficient}

abbrev task : String → TaskType → Task
task name kind = record {
  task_id = name;
  task_type = kind;
  rationale = "asked";
  query = some "why";
  merchant_id = none;
  method_id = none;
  evidence_category = "any";
}

abbrev pub item : String → Source → String → EvidenceItem
item id source text = record {
  evidence_id = id;
  source = source;
  doc_id = none;
  section = none;
  text_snippet = text;
  has_error = false;
}

abbrev two_tasks : InvestigationPlan
two_tasks = record {
  goal = "why";
  merchant_id = none;
  time_window = none;
  tasks = task "t1" retrieve_docs ∷ task "t2" query_metrics ∷ [];
}

-- The research fails; the analysis gives no item, so the evidence never suffices. The critic
-- rejects every report.
abbrev pub failing : Agents
failing = record {
  Metric = ℕ;
  Hypothesis = ℕ;
  Report = ℕ;
  plan = λ question merchant. two_tasks;
  research = λ query t. raised "ValueError" "no index";
  score_merchant = λ m w. raised "ValueError" "no data";
  run_classification = λ m w. gave [];
  run_regression = λ m w. gave [];
  check_integrity = λ q w m t. gave [];
  analyze = λ q w m method t. gave (record { metrics = 4 ∷ []; operations = [] });
  metric_evidence = λ n. item "m1" metric "rate";
  inspect = λ q w m t. gave (record { items = []; operations = [] });
  default_window = record { start = 0; end = 9 };
  propose = λ evidence metrics question. [];
  supporting_evidence_ids = λ h. [];
  category = λ h. "unknown";
  verify = λ hypotheses evidence. record {
    claims = [];
    needs_more_evidence = true;
    gaps = [];
    status = "weak";
  };
  review = λ question plan verdict claims report. record {
    approved = false;
    issues = "thin" ∷ [];
    revision_instructions = none;
  };
  cause_evidence_ids = λ report. [];
  evidence_sufficient = λ report. false;
}

abbrev pub runtime : Runtime failing
runtime = record { write = λ draft. 1; expired = λ n. ltb 4 n }

abbrev start : InvestigationState failing
start = initial_state failing "why" 2 none "text" "en" "en" none

-- Two rounds, the second cut short by the clock, then a report that is revised once.
rejected_run : (walk runtime 16 (planner, start)).0 ≡ finish
unfolding walk initial_state maximum join take_text
rejected_run = refl

revised_once : (walk runtime 16 (planner, start)).1.critic_revisions ≡ 1
unfolding walk initial_state join take_text
revised_once = refl

walk-finish_example : (walk runtime 16 (planner, start)).0 ≡ finish
unfolding maximum
walk-finish_example = walk-finish runtime "why" 2 none "text" "en" "en" none 16 (omega arith)

abbrev planned : InvestigationState failing
planned = record start { pending_tasks = two_tasks.tasks; readings = 3 }

-- The first task fails in time; the clock stops the second.
left_pending : (investigate_node runtime planned).pending_tasks ≡ task "t2" query_metrics ∷ []
unfolding investigate_node initial_state
left_pending = refl

abbrev old_items : List EvidenceItem
old_items = item "a" doc "old" ∷ item "b" doc "kept" ∷ []

abbrev new_items : List EvidenceItem
new_items = item "c" doc "added" ∷ item "a" doc "new" ∷ []

merged_in_place :
    merge_evidence old_items new_items
    ≡ item "a" doc "new" ∷ item "b" doc "kept" ∷ item "c" doc "added" ∷ []
unfolding merge_evidence
merged_in_place = refl

filter-merge_evidence_example :
    filter (has_id "a") (merge_evidence old_items new_items)
    ≡ as_list (latest "a" (latest "a" none old_items) new_items)
filter-merge_evidence_example = filter-merge_evidence "a" old_items new_items

evaluate_sufficient_example :
    ((evaluate (some two_tasks) (item "a" doc "x" ∷ [])).sufficient ≡ true)
    ↔ ((two_tasks.tasks ≢ []) × All (HasEvidence (item "a" doc "x" ∷ [])) two_tasks.tasks)
evaluate_sufficient_example = evaluate_sufficient two_tasks (item "a" doc "x" ∷ [])

-- Where the documents never have what is asked for, six rounds take more than 25 visits.
abbrev barren : Agents
barren = record failing {
  research = λ query t. gave (record { items = []; queries = []; rag = none });
}

abbrev patient : Runtime barren
patient = record { write = λ draft. 1; expired = λ n. false }

abbrev six_rounds : InvestigationState barren
six_rounds = initial_state barren "why" 6 none "text" "en" "en" none

long_run : (walk patient 25 (planner, six_rounds)).0 ≡ critic
unfolding walk initial_state join take_text
long_run = refl
