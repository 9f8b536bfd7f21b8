-- ===== src/Agents/Sufficiency.antt =====
-- packages/payops_core/agents/sufficiency.py: is there evidence of every planned category?
pub mod Verdict
use payops_intelligence.Prelude.{
  ℕ, Bool, true, false, not, ◌&&◌, Option, none, some, List, [], ◌∷◌, String, ◌<>◌, show_nat,
  if◌then◌else◌,
}
use payops_intelligence.Prelude.Lists.{any}
use payops_intelligence.Graph.Types.{
  TaskType, retrieve_docs, query_metrics, inspect_webhooks, compare_merchants, merchant_health,
  score_risk, score_regression, validate_integrity, label, Source, doc, metric, webhook, health, ml,
  integrity, Task, InvestigationPlan, EvidenceItem, EvidenceGap, SufficiencyVerdict,
}

-- `_SOURCE_FOR_TASK`
unfoldable pub source_for_task : TaskType → Source
source_for_task retrieve_docs = doc
source_for_task query_metrics = metric
source_for_task inspect_webhooks = webhook
source_for_task compare_merchants = metric
source_for_task merchant_health = health
source_for_task score_risk = ml
source_for_task score_regression = ml
source_for_task validate_integrity = integrity

unfoldable pub source_name : Source → String
source_name doc = "doc"
source_name metric = "metric"
source_name webhook = "webhook"
source_name health = "health"
source_name ml = "ml"
source_name integrity = "integrity"

abbrev pub same_source : Source → Source → Bool
same_source doc doc = true
same_source metric metric = true
same_source webhook webhook = true
same_source health health = true
same_source ml ml = true
same_source integrity integrity = true
same_source _ _ = false

-- `needed in present`
unfoldable pub is_present : Source → List EvidenceItem → Bool
is_present needed items = any (λ item. not item.has_error && same_source needed item.source) items

unfoldable pub gap_of : Task → EvidenceGap
unfolding source_for_task source_name label
gap_of task = record {
  description =
      "Missing "
      <> source_name (source_for_task task.task_type)
      <> " evidence for "
      <> label task.task_type;
  next_task_type = task.task_type;
  suggested_query = task.query;
}

-- The loop over `plan.tasks`.
unfoldable pub missing_gaps : List Task → List EvidenceItem → List EvidenceGap
unfolding source_for_task is_present gap_of
missing_gaps [] items = []
missing_gaps (task ∷ tasks) items =
    let rest = missing_gaps tasks items in
    if is_present (source_for_task task.task_type) items then rest else gap_of task ∷ rest

unfoldable pub no_plan : SufficiencyVerdict
no_plan = record {
  sufficient = false;
  missing =
      record {
        description = "No investigation plan";
        next_task_type = retrieve_docs;
        suggested_query = none;
      }
      ∷ [];
  next_action = "investigate";
  reason = "planner produced no tasks";
}

unfoldable pub verdict_of : List EvidenceGap → SufficiencyVerdict
verdict_of [] = record {
  sufficient = true;
  missing = [];
  next_action = "verify";
  reason = "all planned evidence categories are present";
}
verdict_of (gap ∷ gaps) = record {
  sufficient = false;
  missing = gap ∷ gaps;
  next_action = "investigate";
  reason = "planned evidence categories are incomplete";
}

unfoldable pub evaluate_tasks : List Task → List EvidenceItem → SufficiencyVerdict
unfolding no_plan verdict_of missing_gaps
evaluate_tasks [] items = no_plan
evaluate_tasks (task ∷ tasks) items = verdict_of (missing_gaps (task ∷ tasks) items)

-- `SufficiencyAgent.evaluate`
unfoldable pub evaluate : Option InvestigationPlan → List EvidenceItem → SufficiencyVerdict
unfolding no_plan evaluate_tasks
evaluate none items = no_plan
evaluate (some plan) items = evaluate_tasks plan.tasks items

unfoldable pub task_from_gap : EvidenceGap → ℕ → Task
unfolding label
task_from_gap gap index = record {
  task_id = "gap-" <> show_nat index <> "-" <> label gap.next_task_type;
  task_type = gap.next_task_type;
  rationale = gap.description;
  query = gap.suggested_query;
  merchant_id = none;
  method_id = none;
  evidence_category = label gap.next_task_type;
}
