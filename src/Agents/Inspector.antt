-- ===== src/Agents/Inspector.antt =====
-- packages/payops_core/agents/webhook_inspector.py, which asks the webhook gateway.
pub mod Readiness
use payops_intelligence.Prelude.{
  ℕ, Bool, true, false, not, ◌&&◌, Option, none, some, is_given, is_some, List, [], ◌∷◌, ◌++◌, map,
  String, str_eq, ◌<>◌, any, ℤ, pos, if◌then◌else◌,
}
use payops_intelligence.Graph.Types.{TimeWindow, Task, TaskType, EvidenceItem, Source}
use payops_intelligence.Webhooks.Rows.{
  Records, Kind, WebhookFinding, Operation, WebhookRequest, WebhookToolResult,
}
use payops_intelligence.Webhooks.Gateway.{GatewayAnswer, result, value_error, run}
use payops_intelligence.Agents.Planning.{
  Questions, or_found, add_new, add_hinted, add_asked, or_defaults,
}

abbrev pub operation_text : Operation → String
operation_text Operation.get_events_for_payment = "get_events_for_payment"
operation_text Operation.find_missing_events = "find_missing_events"
operation_text Operation.find_delayed_events = "find_delayed_events"
operation_text Operation.get_delivery_failures = "get_delivery_failures"
operation_text Operation.find_retries = "find_retries"
operation_text Operation.find_duplicate_events = "find_duplicate_events"
operation_text Operation.correlate_events_and_payments = "correlate_events_and_payments"

abbrev pub same_operation : Operation → Operation → Bool
same_operation left right = str_eq (operation_text left) (operation_text right)

-- `ALLOWED_WEBHOOK_OPERATIONS`
abbrev pub allowed_operations : List Operation
allowed_operations =
    Operation.get_events_for_payment ∷ Operation.find_missing_events ∷ Operation.find_delayed_events
    ∷ Operation.get_delivery_failures ∷ Operation.find_retries ∷ Operation.find_duplicate_events
    ∷ Operation.correlate_events_and_payments ∷ []

-- `_OPERATION_HINTS`
abbrev pub operation_hints : List (List String × Operation)
operation_hints =
    ("missing" ∷ "absent" ∷ "never" ∷ [], Operation.find_missing_events)
    ∷ ("delay" ∷ "delayed" ∷ "late" ∷ [], Operation.find_delayed_events)
    ∷ ("failed" ∷ "failure" ∷ "undelivered" ∷ [], Operation.get_delivery_failures)
    ∷ ("retry" ∷ "retries" ∷ "reattempt" ∷ [], Operation.find_retries)
    ∷ ("duplicate" ∷ "duplicates" ∷ "dup" ∷ [], Operation.find_duplicate_events)
    ∷ ("correlate" ∷ "correlation" ∷ "mismatch" ∷ [], Operation.correlate_events_and_payments)
    ∷ []

abbrev pub default_operations : List Operation
default_operations =
    Operation.find_delayed_events ∷ Operation.get_delivery_failures ∷ Operation.find_missing_events
    ∷ []

abbrev pub named_among : List Operation → String → Option Operation
named_among [] text = none
named_among (operation ∷ operations) text =
    if str_eq text (operation_text operation) then some operation else named_among operations text

-- The operation that the task's query names.
abbrev pub asked_operation : Option Task → Option Operation
asked_operation none = none
asked_operation (some task) = asked task.query
  where
    asked : Option String → Option Operation
    asked none = none
    asked (some text) = named_among allowed_operations text

-- The lookup of a payment, where it is named and nothing else is planned.
abbrev pub add_lookup : Option String → List Operation → List Operation
add_lookup payment_id [] = if is_given payment_id then Operation.get_events_for_payment ∷ [] else []
add_lookup payment_id (operation ∷ planned) = operation ∷ planned

-- What `inspect` returns, or the text of a `ValueError`.
pub data Inspected : Type 0 where
  inspected : List Operation → List WebhookToolResult → List EvidenceItem → Inspected
  inspect_error : String → Inspected

-- The texts of a finding: its kind, and the list of event identifiers as Python prints it.
abbrev pub kind_text : Kind → String
kind_text Kind.event = "event"
kind_text Kind.missing = "missing"
kind_text Kind.delayed = "delayed"
kind_text Kind.failed = "failed"
kind_text Kind.retry = "retry"
kind_text Kind.duplicate = "duplicate"
kind_text Kind.mismatch = "mismatch"

abbrev pub suffix_of : List String → String
suffix_of [] = "none"
suffix_of (id ∷ ids) = id

unfoldable pub finding_evidence : (List String → String) → WebhookFinding → EvidenceItem
finding_evidence show finding = record {
  evidence_id =
      "webhook-"
      <> kind_text finding.kind
      <> "-"
      <> finding.payment_id
      <> "-"
      <> suffix_of finding.event_ids;
  source = Source.webhook;
  doc_id = none;
  section = none;
  text_snippet =
      kind_text finding.kind
      <> " payment="
      <> finding.payment_id
      <> " events="
      <> show finding.event_ids;
  has_error = false;
}

abbrev pub evidence_of_results : (List String → String) → List WebhookToolResult → List EvidenceItem
evidence_of_results show [] = []
evidence_of_results show (r ∷ results) =
    map (finding_evidence show) r.findings ++ evidence_of_results show results

-- The loop over the operations, which an exception of the gateway ends.
pub data Runs : Type 0 where
  all_ran : List WebhookToolResult → Runs
  run_error : String → Runs

abbrev pub run_first : GatewayAnswer → Runs → Runs
run_first (value_error error) rest = run_error error
run_first (result r) (run_error error) = run_error error
run_first (result r) (all_ran results) = all_ran (r ∷ results)

unfoldable pub run_each : (Operation → WebhookRequest) → List Operation → Records → Runs
unfolding run
run_each request [] records = all_ran []
run_each request (operation ∷ operations) records =
    let rest = run_each request operations records in
    run_first (run (request operation) records) rest

-- The arguments of `inspect` after the question.
pub record InspectorCall : Type 0 where
  pub window : Option TimeWindow
  pub merchant_id : Option String
  pub payment_id : Option String
  pub delay_threshold_ms : ℤ
  pub task : Option Task

abbrev pub is_inspection : Option Task → Bool
is_inspection none = true
is_inspection (some task) = is_kind task.task_type
  where
    is_kind : TaskType → Bool
    is_kind TaskType.inspect_webhooks = true
    is_kind _ = false

abbrev pub task_merchant : Option Task → Option String
task_merchant none = none
task_merchant (some task) = if is_given task.merchant_id then task.merchant_id else none

-- The merchant of the task, or the argument, or the first that the question names.
abbrev pub merchant_for : Option String → Option String → List String → Option String
merchant_for (some id) merchant_id found = some id
merchant_for none merchant_id found = or_found merchant_id found

module _ (Q : Questions) where
  unfoldable pub plan_operations : String → Option Task → Option String → List Operation
  unfolding is_given
  plan_operations question task payment_id =
      let asked = add_asked same_operation (asked_operation task) [] in
      let hinted = add_hinted same_operation (Q.tokens question) operation_hints asked in
      or_defaults same_operation (add_lookup payment_id hinted) default_operations

  abbrev pub gateway_request : String → InspectorCall → Operation → WebhookRequest
  gateway_request question call operation = record {
    operation = operation;
    window = call.window;
    merchant_id = merchant_for (task_merchant call.task) call.merchant_id (Q.merchants question);
    payment_id = or_found call.payment_id (Q.payments question);
    delay_threshold_ms = call.delay_threshold_ms;
  }

  abbrev pub inspection_of_runs : (List String → String) → List Operation → Runs → Inspected
  inspection_of_runs show operations (run_error error) = inspect_error error
  inspection_of_runs show operations (all_ran results) =
      inspected operations results (evidence_of_results show results)

  unfoldable pub inspect : (List String → String) → String → InspectorCall → Records → Inspected
  unfolding is_given plan_operations run_each finding_evidence
  inspect show question call records =
      if not (is_inspection call.task)
      then inspect_error "WebhookInspectorAgent only executes inspect_webhooks tasks"
      else let operations =
          plan_operations question call.task (or_found call.payment_id (Q.payments question)) in
        inspection_of_runs show operations
          (run_each (gateway_request question call) operations records)
