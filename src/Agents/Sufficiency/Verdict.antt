-- ===== src/Agents/Sufficiency/Verdict.antt =====
-- The sufficiency agent's verdict, against the plan and the evidence.
use payops_intelligence.Prelude.{
  ◌≡◌, ◌≢◌, ◌↔◌, ◌⊎◌, refl, true, false, false≢true, inl, inr, Bool-cases, some, List, [], ◌∷◌,
  arith,
}
use payops_intelligence.Prelude.Lists.{All}
use payops_intelligence.Graph.Types.{
  InvestigationPlan, Task, TaskType, retrieve_docs, query_metrics, compare_merchants,
  inspect_webhooks, merchant_health, score_risk, score_regression, validate_integrity, Source, doc,
  metric, webhook, health, ml, integrity, EvidenceItem, EvidenceGap,
}
use payops_intelligence.Agents.Sufficiency.{
  source_for_task, same_source, is_present, missing_gaps, verdict_of, evaluate_tasks, evaluate,
}

-- What a task of each kind can be served by: documents, metrics, the records of the webhooks, a
-- merchant's health, a model's score, or the books.
abbrev pub Serves : TaskType → Source → Type 0
Serves retrieve_docs source = source ≡ doc
Serves query_metrics source = source ≡ metric
Serves compare_merchants source = source ≡ metric
Serves inspect_webhooks source = source ≡ webhook
Serves merchant_health source = source ≡ health
Serves score_risk source = source ≡ ml
Serves score_regression source = source ≡ ml
Serves validate_integrity source = source ≡ integrity

-- One of the items is not marked as an error and serves the task.
abbrev pub HasEvidence : List EvidenceItem → Task → Type 0
HasEvidence [] task = ⊥
HasEvidence (item ∷ items) task =
    ((item.has_error ≡ false) × Serves task.task_type item.source) ⊎ HasEvidence items task

eq_of_same_source : (a b : Source) → same_source a b ≡ true → b ≡ a
eq_of_same_source doc doc e = refl
eq_of_same_source metric metric e = refl
eq_of_same_source webhook webhook e = refl
eq_of_same_source health health e = refl
eq_of_same_source ml ml e = refl
eq_of_same_source integrity integrity e = refl
eq_of_same_source _ _ e = absurd (false≢true e)

source_for_task-Serves :
    (kind : TaskType) (source : Source)
    → (same_source (source_for_task kind) source ≡ true) ↔ Serves kind source
unfolding source_for_task
source_for_task-Serves retrieve_docs s = (eq_of_same_source doc s, λ e. rw e refl)
source_for_task-Serves query_metrics s = (eq_of_same_source metric s, λ e. rw e refl)
source_for_task-Serves compare_merchants s = (eq_of_same_source metric s, λ e. rw e refl)
source_for_task-Serves inspect_webhooks s = (eq_of_same_source webhook s, λ e. rw e refl)
source_for_task-Serves merchant_health s = (eq_of_same_source health s, λ e. rw e refl)
source_for_task-Serves score_risk s = (eq_of_same_source ml s, λ e. rw e refl)
source_for_task-Serves score_regression s = (eq_of_same_source ml s, λ e. rw e refl)
source_for_task-Serves validate_integrity s = (eq_of_same_source integrity s, λ e. rw e refl)

is_present-HasEvidence :
    (items : List EvidenceItem) (task : Task)
    → is_present (source_for_task task.task_type) items ≡ true
    → HasEvidence items task
unfolding is_present
is_present-HasEvidence [] task h = absurd (false≢true h)
is_present-HasEvidence (item ∷ items) task h = elim (Bool-cases item.has_error) [
  | inl error ↦ inr (is_present-HasEvidence items task (rw error at h))
  | inr usable ↦ elim (Bool-cases (same_source (source_for_task task.task_type) item.source)) [
    | inl e ↦ inl (usable, (source_for_task-Serves task.task_type item.source).0 e)
    | inr e ↦ inr (is_present-HasEvidence items task (rw e at (rw usable at h)))
  ]
]

HasEvidence-is_present :
    (items : List EvidenceItem) (task : Task)
    → HasEvidence items task
    → is_present (source_for_task task.task_type) items ≡ true
unfolding is_present
HasEvidence-is_present [] task h = absurd h
HasEvidence-is_present (item ∷ items) task (inl (usable, serves)) =
    let same = (source_for_task-Serves task.task_type item.source).1 serves in
    rw usable (rw same refl)
HasEvidence-is_present (item ∷ items) task (inr later) =
    let rest = HasEvidence-is_present items task later in ground arith

missing_gaps-nil :
    (tasks : List Task) (items : List EvidenceItem)
    → missing_gaps tasks items ≡ []
    → All (HasEvidence items) tasks
unfolding missing_gaps
missing_gaps-nil [] items e = tt
missing_gaps-nil (task ∷ tasks) items e =
    elim (Bool-cases (is_present (source_for_task task.task_type) items)) [
      | inl found ↦
          (is_present-HasEvidence items task found, missing_gaps-nil tasks items (ground arith))
      | inr lacking ↦ absurd (ground arith)
    ]

nil-missing_gaps :
    (tasks : List Task) (items : List EvidenceItem)
    → All (HasEvidence items) tasks
    → missing_gaps tasks items ≡ []
unfolding missing_gaps
nil-missing_gaps [] items h = refl
nil-missing_gaps (task ∷ tasks) items h =
    rw (HasEvidence-is_present items task h.0) (nil-missing_gaps tasks items h.1)

verdict_of_nil : (gaps : List EvidenceGap) → (verdict_of gaps).sufficient ≡ true → gaps ≡ []
unfolding verdict_of
verdict_of_nil [] e = refl
verdict_of_nil (gap ∷ gaps) e = absurd cc

evaluate_tasks_sound :
    (tasks : List Task) (items : List EvidenceItem)
    → (evaluate_tasks tasks items).sufficient ≡ true
    → (tasks ≢ []) × All (HasEvidence items) tasks
unfolding evaluate_tasks
evaluate_tasks_sound [] items e = absurd cc
evaluate_tasks_sound (task ∷ tasks) items e =
    (λ same. cc, missing_gaps-nil (task ∷ tasks) items (verdict_of_nil _ e))

evaluate_tasks_complete :
    (tasks : List Task) (items : List EvidenceItem)
    → (tasks ≢ []) × All (HasEvidence items) tasks
    → (evaluate_tasks tasks items).sufficient ≡ true
unfolding evaluate_tasks verdict_of
evaluate_tasks_complete [] items h = absurd (h.0 refl)
evaluate_tasks_complete (task ∷ tasks) items h = rw (nil-missing_gaps (task ∷ tasks) items h.1) refl

-- The agent finds the evidence of a plan sufficient exactly when the plan has a task and, for each
-- of its tasks, one of the items is not marked as an error and comes from the source that serves
-- tasks of its kind: documents, metrics, webhooks, a merchant's health, a model or the books.
pub evaluate_sufficient :
    (plan : InvestigationPlan) (items : List EvidenceItem)
    → ((evaluate (some plan) items).sufficient ≡ true)
      ↔ ((plan.tasks ≢ []) × All (HasEvidence items) plan.tasks)
unfolding evaluate
evaluate_sufficient plan items =
    (evaluate_tasks_sound plan.tasks items, evaluate_tasks_complete plan.tasks items)
