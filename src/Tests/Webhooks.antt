-- ===== src/Tests/Webhooks.antt =====
-- The webhook tools on concrete events.
use payops_intelligence.Prelude.{
  ℕ, ◌≤◌, ◌≡◌, ◌↔◌, refl, none, some, List, [], ◌∷◌, map, filter, length, String, ℤ, pos, negsuc,
  All,
}
use payops_intelligence.Webhooks.Rows.{
  Payment, WebhookEvent, Records, AnalyzedEvent, AnalyzedPayment, WebhookFinding, Operation,
  WebhookRequest, WebhookToolResult,
}
use payops_intelligence.Webhooks.Analysis.{missing_finding, find_missing_events}
use payops_intelligence.Webhooks.Analysis.Absence.{is_unannounced, find_missing_events_lem}
use payops_intelligence.Webhooks.Findings.{find_duplicate_events}
use payops_intelligence.Webhooks.Findings.Distinct.{AreApart, find_duplicate_events_distinct}
use payops_intelligence.Webhooks.Gateway.{
  load_events, load_payments, findings_of, result, value_error, run,
}
use payops_intelligence.Webhooks.Gateway.Answers.{IsAdmissible, run-IsAdmissible}

abbrev pub paid : String → ℕ → Payment
paid id time = record {
  payment_id = id;
  order_id = "O1";
  merchant_id = "M1";
  method_id = "upi";
  amount_cents = pos 500;
  status = "succeeded";
  error_code = none;
  created_at = time;
  captured_at = some time;
}

abbrev delivered : String → String → ℕ → ℤ → WebhookEvent
delivered id payment time attempt = record {
  event_id = id;
  payment_id = payment;
  event_type = "payment.succeeded";
  delivery_status = "delivered";
  delay_ms = 40_000;
  created_at = time;
  delivered_at = none;
  attempt = some attempt;
  idempotency_key = none;
}

-- A payment at the end of the window, with its event after it, and one before the window, with its
-- event in it.
abbrev pub records : Records
records = record {
  payments = paid "p1" 9 ∷ paid "p2" 2 ∷ [];
  events =
      delivered "e1" "p1" 11 (pos 1)
      ∷ delivered "e3" "p2" 7 (pos 1)
      ∷ delivered "e2" "p2" 6 (pos 1)
      ∷ [];
}

abbrev asking : Operation → WebhookRequest
asking operation = record {
  operation = operation;
  window = some (record { start = 5; end = 10 });
  merchant_id = none;
  payment_id = none;
  delay_threshold_ms = pos 30_000;
}

abbrev found : Operation → List WebhookFinding
found operation = findings_of operation (asking operation) records

-- The first payment is reported to miss an event that is on record.
abbrev missing_ids : List String
missing_ids = map (λ (f : WebhookFinding). f.payment_id) (found Operation.find_missing_events)

late_event : missing_ids ≡ "p1" ∷ []
unfolding findings_of
late_event = refl

-- The second payment is reported as unknown, though it is on record.
abbrev mismatch_ids : List String
mismatch_ids =
    map (λ (f : WebhookFinding). f.payment_id) (found Operation.correlate_events_and_payments)

early_payment : mismatch_ids ≡ "p2" ∷ "p2" ∷ []
unfolding findings_of
early_payment = refl

abbrev duplicate_ids : List (List String)
duplicate_ids = map (λ (f : WebhookFinding). f.event_ids) (found Operation.find_duplicate_events)

one_duplicate : duplicate_ids ≡ ("e2" ∷ "e3" ∷ []) ∷ []
unfolding findings_of
one_duplicate = refl

abbrev delayed_ids : List (List String)
delayed_ids = map (λ (f : WebhookFinding). f.event_ids) (found Operation.find_delayed_events)

delayed_in_order : delayed_ids ≡ ("e2" ∷ []) ∷ ("e3" ∷ []) ∷ []
unfolding findings_of
delayed_in_order = refl

no_window :
    run (record (asking Operation.find_retries) { window = none }) records
    ≡ value_error "time window is required"
unfolding run
no_window = refl

negative :
    run (record (asking Operation.find_retries) { delay_threshold_ms = negsuc 0 }) records
    ≡ value_error "delay_threshold_ms must be >= 0"
unfolding run
negative = refl

abbrev loaded : List AnalyzedEvent
loaded = load_events (asking Operation.find_retries) records

abbrev in_window : List AnalyzedPayment
in_window = load_payments (asking Operation.find_missing_events) records

find_missing_events_lem_example :
    find_missing_events in_window loaded
    ≡ map missing_finding (filter (is_unannounced loaded) in_window)
find_missing_events_lem_example = find_missing_events_lem in_window loaded

find_duplicate_events_distinct_example :
    All (λ (f : WebhookFinding). 2 ≤ length f.event_ids) (find_duplicate_events loaded)
    × AreApart (find_duplicate_events loaded)
find_duplicate_events_distinct_example = find_duplicate_events_distinct loaded

run-IsAdmissible_example :
    ((r : WebhookToolResult) × (run (asking Operation.find_retries) records ≡ result r))
    ↔ IsAdmissible (asking Operation.find_retries)
run-IsAdmissible_example = run-IsAdmissible (asking Operation.find_retries) records

abbrev answered : WebhookToolResult
answered = record {
  operation = Operation.find_retries;
  findings = [];
  count = 0;
  window = some (record { start = 5; end = 10 });
  filters = record { merchant_id = none; payment_id = none; delay_threshold_ms = pos 30_000 };
}
