-- ===== src/Tests/Inspector.antt =====
-- The webhook inspector and the analyst at concrete questions.
use payops_intelligence.Prelude.{
  ◌≡◌, refl, some, none, List, [], ◌∷◌, String, pos, arith, is_id, is_given,
}
use payops_intelligence.Graph.Types.{Task, TaskType}
use payops_intelligence.Webhooks.Rows.{Operation, WebhookToolResult}
use payops_intelligence.Books.Rows.{AnalyticsOperation}
use payops_intelligence.Tests.Webhooks.{records}
use payops_intelligence.Agents.Planning.{Questions}
use payops_intelligence.Agents.Inspector.{
  InspectorCall, inspected, plan_operations, inspect, evidence_of_results, gateway_request,
}
use payops_intelligence.Agents.Inspector.Readiness.{IsReady, AreAnswers, inspect_answers}
use payops_intelligence.Agents.Analyst.{plan_analytics}

-- A question is its only word, and names a payment and a merchant.
abbrev questions : Questions
questions = record {
  tokens = λ question. question ∷ [];
  merchants = λ question. "M1" ∷ [];
  payments = λ question. "p1" ∷ [];
}

abbrev asking : String → Task
asking query = record {
  task_id = "t1";
  task_type = TaskType.inspect_webhooks;
  rationale = "";
  query = some query;
  merchant_id = none;
  method_id = none;
  evidence_category = "webhook";
}

planned_once :
    plan_operations questions "retry" (some (asking "find_retries")) (some "p1")
    ≡ Operation.find_retries ∷ []
unfolding plan_operations
planned_once = refl

looked_up : plan_operations questions "why" none (some "p1") ≡ Operation.get_events_for_payment ∷ []
unfolding plan_operations
looked_up = refl

compared :
    plan_analytics questions "refund" none (some "M2")
    ≡ AnalyticsOperation.get_refund_rate ∷ AnalyticsOperation.compare_merchants ∷ []
unfolding plan_analytics
compared = refl

abbrev call : InspectorCall
call = record {
  window = some (record { start = 5; end = 10 });
  merchant_id = none;
  payment_id = none;
  delay_threshold_ms = pos 30_000;
  task = some (asking "find_retries");
}

call-IsReady : IsReady questions "retry" call
unfolding is_id is_given
call-IsReady = record {
  task = refl;
  merchant = refl;
  payment = refl;
  threshold = ground arith;
  windowed = omega arith;
  named = λ operation e lookup. refl;
}

inspect_answers_example :
    let operations = plan_operations questions "retry" (some (asking "find_retries")) (some "p1") in
    (results : List WebhookToolResult) × (inspect questions (λ ids. "ids") "retry" call records
      ≡ inspected operations results (evidence_of_results (λ ids. "ids") results))
    × AreAnswers (gateway_request questions "retry" call) records operations results
inspect_answers_example = inspect_answers questions (λ ids. "ids") "retry" call records call-IsReady
