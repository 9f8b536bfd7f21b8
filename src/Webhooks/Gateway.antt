-- ===== src/Webhooks/Gateway.antt =====
-- packages/payops_core/tools/webhook_gateway.py: the catalogue of investigations of stored events.
-- A query without an order returns rows in table order.
pub mod Answers
use payops_intelligence.Prelude.{
  ℕ, Bool, true, false, not, ◌&&◌, Option, none, some, List, [], ◌∷◌, ◌++◌, map, String, str_eq,
  is_given, is_id, take, length, filter, ltb, leb, ℤ, pos, ltb_ℤ, eqb_ℤ, if◌then◌else◌, ◌<>◌,
}
use payops_intelligence.Graph.Types.{TimeWindow}
use payops_intelligence.Webhooks.Rows.{
  Payment, WebhookEvent, Records, AnalyzedEvent, AnalyzedPayment, WebhookFinding, Operation,
  WebhookRequest, WebhookToolResult,
}
use payops_intelligence.Webhooks.Analysis.{
  find_delayed_events, find_failed_deliveries, find_missing_events, correlate_events,
  events_for_payment,
}
use payops_intelligence.Webhooks.Findings.{find_retries, find_duplicate_events}

abbrev pub finding_limit : ℕ
finding_limit = 100

-- `int(extra.get("attempt") or 1)`
unfoldable pub attempt_or_one : Option ℤ → ℤ
attempt_or_one none = pos 1
attempt_or_one (some n) = if eqb_ℤ n (pos 0) then pos 1 else n

unfoldable pub to_event : WebhookEvent → Payment → AnalyzedEvent
unfolding attempt_or_one
to_event e payment = record {
  event_id = e.event_id;
  payment_id = e.payment_id;
  event_type = e.event_type;
  delivery_status = e.delivery_status;
  delay_ms = e.delay_ms;
  created_at = e.created_at;
  delivered_at = e.delivered_at;
  attempt = attempt_or_one e.attempt;
  idempotency_key = e.idempotency_key;
  order_id = some payment.order_id;
  merchant_id = some payment.merchant_id;
  payment_status = some payment.status;
}

unfoldable pub to_payment : Payment → AnalyzedPayment
to_payment payment = record {
  payment_id = payment.payment_id;
  order_id = payment.order_id;
  merchant_id = payment.merchant_id;
  status = payment.status;
  created_at = payment.created_at;
}

-- The row that the foreign key of an event names.
abbrev pub payment_of : String → List Payment → Option Payment
payment_of id [] = none
payment_of id (payment ∷ payments) =
    if str_eq payment.payment_id id then some payment else payment_of id payments

abbrev pub in_window : Option TimeWindow → ℕ → Bool
in_window none stamp = true
in_window (some window) stamp = leb window.start stamp && ltb stamp window.end

-- `text == value` where a text was given.
unfoldable pub matches : Option String → String → Bool
unfolding is_given
matches none value = true
matches (some text) value = if is_given (some text) then str_eq value text else true

-- `_predicates`, with the time that is compared.
unfoldable pub predicates : WebhookRequest → ℕ → Payment → Bool
unfolding matches
predicates request stamp payment =
    in_window request.window stamp
    && (matches request.merchant_id payment.merchant_id
        && matches request.payment_id payment.payment_id)

abbrev pub joined : WebhookRequest → WebhookEvent → Option Payment → List AnalyzedEvent
joined request e none = []
joined request e (some payment) =
    if predicates request e.created_at payment then to_event e payment ∷ [] else []

unfoldable pub join_events : WebhookRequest → List Payment → List WebhookEvent → List AnalyzedEvent
unfolding predicates to_event
join_events request payments [] = []
join_events request payments (e ∷ events) =
    joined request e (payment_of e.payment_id payments) ++ join_events request payments events

unfoldable pub load_events : WebhookRequest → Records → List AnalyzedEvent
unfolding join_events
load_events request records = join_events request records.payments records.events

unfoldable pub load_payments : WebhookRequest → Records → List AnalyzedPayment
unfolding predicates to_payment
load_payments request records =
    map to_payment (filter (λ p. predicates request p.created_at p) records.payments)

-- `_wrap`
unfoldable pub wrap : WebhookRequest → List WebhookFinding → WebhookToolResult
wrap request findings =
    let limited = take finding_limit findings in
    record {
      operation = request.operation;
      findings = limited;
      count = length limited;
      window = request.window;
      filters = record {
        merchant_id = request.merchant_id;
        payment_id = request.payment_id;
        delay_threshold_ms = request.delay_threshold_ms;
      };
    }

-- `request.payment_id or ""`
abbrev pub or_empty : Option String → String
or_empty none = ""
or_empty (some text) = text

-- What the handler of the operation finds.
unfoldable pub findings_of : Operation → WebhookRequest → Records → List WebhookFinding
unfolding load_events load_payments find_delayed_events find_failed_deliveries find_missing_events
    correlate_events events_for_payment find_retries find_duplicate_events
findings_of Operation.get_events_for_payment request records =
    events_for_payment (load_events request records) (or_empty request.payment_id)
findings_of Operation.find_missing_events request records =
    find_missing_events (load_payments request records) (load_events request records)
findings_of Operation.find_delayed_events request records =
    find_delayed_events (load_events request records) request.delay_threshold_ms
findings_of Operation.get_delivery_failures request records =
    find_failed_deliveries (load_events request records)
findings_of Operation.find_retries request records = find_retries (load_events request records)
findings_of Operation.find_duplicate_events request records =
    find_duplicate_events (load_events request records)
findings_of Operation.correlate_events_and_payments request records =
    correlate_events (load_payments request records) (load_events request records)

-- `operation in WINDOW_REQUIRED`
unfoldable pub needs_window : Operation → Bool
needs_window Operation.get_events_for_payment = false
needs_window _ = true

-- `operation == "get_events_for_payment"`
unfoldable pub is_lookup : Operation → Bool
is_lookup Operation.get_events_for_payment = true
is_lookup _ = false

-- `_validate_id`
unfoldable pub id_error : Option String → String → Option String
unfolding is_id
id_error none field = none
id_error (some value) field = if is_id value then none else some ("invalid " <> field)

unfoldable pub window_error : Option TimeWindow → Option String
window_error none = some "time window is required"
window_error (some window) =
    if leb window.end window.start then some "time window end must be after start" else none

abbrev pub or_error : Option String → Option String → Option String
or_error none later = later
or_error (some error) later = some error

-- The guards of `run`, in their order. The type of an operation has the allowed ones only.
unfoldable pub request_error : WebhookRequest → Option String
unfolding id_error window_error needs_window is_lookup is_given
request_error request = or_error (id_error request.merchant_id "merchant_id") (
    or_error (id_error request.payment_id "payment_id") (
      or_error
        (if ltb_ℤ request.delay_threshold_ms (pos 0)
          then some "delay_threshold_ms must be >= 0"
          else none)
        (or_error (if needs_window request.operation then window_error request.window else none) (
          if is_lookup request.operation && not (is_given request.payment_id)
          then some "get_events_for_payment requires payment_id"
          else none))))

-- A result, or the text of a `ValueError`.
pub data GatewayAnswer : Type 0 where
  result : WebhookToolResult → GatewayAnswer
  value_error : String → GatewayAnswer

abbrev pub answer : Option String → WebhookRequest → Records → GatewayAnswer
answer (some error) request records = value_error error
answer none request records = result (wrap request (findings_of request.operation request records))

unfoldable pub run : WebhookRequest → Records → GatewayAnswer
unfolding request_error wrap findings_of
run request records = answer (request_error request) request records
