-- ===== src/Agents/Analyst.antt =====
-- packages/payops_core/agents/analyst.py, which asks the SQL gateway.
use payops_intelligence.Prelude.{
  Bool, true, false, not, Option, none, some, is_given, List, [], ◌∷◌, String, str_eq,
  if◌then◌else◌,
}
use payops_intelligence.Graph.Types.{TimeWindow, Task, TaskType}
use payops_intelligence.Books.Rows.{
  Books, CompareMetric, AnalyticsOperation, AnalyticsRequest, MetricResult,
}
use payops_intelligence.Books.Gateway.{AnalyticsAnswer, measured, refused, run_operation}
use payops_intelligence.Agents.Planning.{Questions, add_new, add_hinted, add_asked, or_defaults}
use payops_intelligence.Agents.Inspector.{task_merchant, merchant_for}

abbrev pub analytics_text : AnalyticsOperation → String
analytics_text AnalyticsOperation.get_success_rate = "get_success_rate"
analytics_text AnalyticsOperation.get_failure_rate = "get_failure_rate"
analytics_text AnalyticsOperation.breakdown_by_method = "breakdown_by_method"
analytics_text AnalyticsOperation.breakdown_by_error_code = "breakdown_by_error_code"
analytics_text AnalyticsOperation.compare_time_windows = "compare_time_windows"
analytics_text AnalyticsOperation.compare_merchants = "compare_merchants"
analytics_text AnalyticsOperation.get_refund_rate = "get_refund_rate"
analytics_text AnalyticsOperation.get_dispute_rate = "get_dispute_rate"
analytics_text AnalyticsOperation.get_webhook_failure_rate = "get_webhook_failure_rate"

abbrev pub same_analytics : AnalyticsOperation → AnalyticsOperation → Bool
same_analytics left right = str_eq (analytics_text left) (analytics_text right)

-- `ALLOWED_OPERATIONS`
abbrev pub allowed_analytics : List AnalyticsOperation
allowed_analytics =
    AnalyticsOperation.get_success_rate ∷ AnalyticsOperation.get_failure_rate
    ∷ AnalyticsOperation.breakdown_by_method ∷ AnalyticsOperation.breakdown_by_error_code
    ∷ AnalyticsOperation.compare_time_windows ∷ AnalyticsOperation.compare_merchants
    ∷ AnalyticsOperation.get_refund_rate ∷ AnalyticsOperation.get_dispute_rate
    ∷ AnalyticsOperation.get_webhook_failure_rate ∷ []

-- `_OPERATION_HINTS`
abbrev pub analytics_hints : List (List String × AnalyticsOperation)
analytics_hints =
    ("success" ∷ "succeeded" ∷ [], AnalyticsOperation.get_success_rate)
    ∷ ("failure" ∷ "failed" ∷ "fail" ∷ [], AnalyticsOperation.get_failure_rate)
    ∷ (
      "method" ∷ "methods" ∷ "upi" ∷ "card" ∷ "wallet" ∷ "netbanking" ∷ [],
      AnalyticsOperation.breakdown_by_method,
    )
    ∷ ("error" ∷ "errors" ∷ "gateway_timeout" ∷ [], AnalyticsOperation.breakdown_by_error_code)
    ∷ ("refund" ∷ "refunds" ∷ [], AnalyticsOperation.get_refund_rate)
    ∷ ("dispute" ∷ "disputes" ∷ "chargeback" ∷ [], AnalyticsOperation.get_dispute_rate)
    ∷ ("webhook" ∷ "webhooks" ∷ [], AnalyticsOperation.get_webhook_failure_rate)
    ∷ ("previous" ∷ "yesterday" ∷ "prior" ∷ "delta" ∷ [], AnalyticsOperation.compare_time_windows)
    ∷ []

abbrev pub analytics_defaults : List AnalyticsOperation
analytics_defaults = AnalyticsOperation.get_success_rate ∷ AnalyticsOperation.get_failure_rate ∷ []

abbrev pub analytics_among : List AnalyticsOperation → String → Option AnalyticsOperation
analytics_among [] text = none
analytics_among (operation ∷ operations) text =
    if str_eq text (analytics_text operation)
    then some operation
    else analytics_among operations text

abbrev pub queried : Option String → Option AnalyticsOperation
queried none = none
queried (some text) = analytics_among allowed_analytics text

-- The operation that the task's query names.
abbrev pub asked_analytics : Option Task → Option AnalyticsOperation
asked_analytics none = none
asked_analytics (some task) = queried task.query

-- The second merchant that the question names.
abbrev pub second_of : List String → Option String
second_of [] = none
second_of (first ∷ []) = none
second_of (first ∷ second ∷ rest) = some second

-- `left or right`
abbrev pub given_or : Option String → Option String → Option String
given_or left right = if is_given left then left else right

abbrev pub task_method : Option Task → Option String
task_method none = none
task_method (some task) = task.method_id

abbrev pub is_analysis : Option Task → Bool
is_analysis none = true
is_analysis (some task) = of_kind task.task_type
  where
    of_kind : TaskType → Bool
    of_kind TaskType.query_metrics = true
    of_kind TaskType.compare_merchants = true
    of_kind _ = false

-- The arguments of `analyze` after the question.
pub record AnalystCall : Type 0 where
  pub window : TimeWindow
  pub merchant_id : Option String
  pub method_id : Option String
  pub compare_merchant_id : Option String
  pub previous_window : Option TimeWindow
  pub task : Option Task

-- What `analyze` returns, or the text of a `ValueError`, which ends the loop over the operations.
pub data Analyzed : Type 0 where
  analyzed : List AnalyticsOperation → List MetricResult → Analyzed
  analyze_error : String → Analyzed

abbrev pub measure_first : AnalyticsOperation → AnalyticsAnswer → Analyzed → Analyzed
measure_first operation (refused error) rest = analyze_error error
measure_first operation (measured r) (analyze_error error) = analyze_error error
measure_first operation (measured r) (analyzed operations metrics) =
    analyzed (operation ∷ operations) (r ∷ metrics)

unfoldable pub measure_each :
    (AnalyticsOperation → AnalyticsRequest) → List AnalyticsOperation → Books → Analyzed
unfolding run_operation
measure_each request [] books = analyzed [] []
measure_each request (operation ∷ operations) books =
    let rest = measure_each request operations books in
    measure_first operation (run_operation (request operation) books) rest

module _ (Q : Questions) where
  unfoldable pub plan_analytics : String → Option Task → Option String → List AnalyticsOperation
  unfolding is_given
  plan_analytics question task compare_merchant_id =
      let asked = add_asked same_analytics (asked_analytics task) [] in
      let hinted = add_hinted same_analytics (Q.tokens question) analytics_hints asked in
      or_defaults same_analytics
        (if is_given compare_merchant_id
          then add_new same_analytics AnalyticsOperation.compare_merchants hinted
          else hinted)
        analytics_defaults

  abbrev pub compared_merchant : String → AnalystCall → Option String
  compared_merchant question call =
      given_or call.compare_merchant_id (second_of (Q.merchants question))

  abbrev pub analytics_request : String → AnalystCall → AnalyticsOperation → AnalyticsRequest
  analytics_request question call operation = record {
    operation = operation;
    window = call.window;
    merchant_id = merchant_for (task_merchant call.task) call.merchant_id (Q.merchants question);
    method_id = given_or (task_method call.task) call.method_id;
    compare_merchant_id = compared_merchant question call;
    previous_window = call.previous_window;
    compare_metric = CompareMetric.success_rate;
  }

  unfoldable pub analyze : String → AnalystCall → Books → Analyzed
  unfolding is_given plan_analytics measure_each
  analyze question call books =
      if not (is_analysis call.task)
      then analyze_error "DataAnalystAgent only executes query_metrics or compare_merchants tasks"
      else measure_each (analytics_request question call)
          (plan_analytics question call.task (compared_merchant question call)) books
