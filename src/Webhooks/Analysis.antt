-- ===== src/Webhooks/Analysis.antt =====
-- packages/payops_core/tools/webhook_analysis.py: deliveries, missing events and mismatches.
pub mod Order
pub mod Absence
use payops_intelligence.Prelude.{
  ℕ, Bool, true, false, not, ◌&&◌, ◌||◌, Option, none, some, List, [], ◌∷◌, ◌++◌, map, String,
  str_eq, str_le, ◌<>◌, contains, startswith, filter, length, ltb, ◌==◌, ℤ, pos, leb_ℤ,
  if◌then◌else◌,
}
use payops_intelligence.Prelude.Sort.{sort_by, group_by, members}
use payops_intelligence.Webhooks.Rows.{
  AnalyzedEvent, AnalyzedPayment, WebhookFinding, Kind, event, missing, delayed, failed, mismatch,
  Reason, no_reason, payment_not_found, event_type_mismatch, of_event, of_missing,
}

abbrev pub terminal_payment_statuses : List String
terminal_payment_statuses = "succeeded" ∷ "failed" ∷ "cancelled" ∷ []

unfoldable pub classify_delivery : AnalyzedEvent → ℤ → String
classify_delivery e threshold_ms =
    if str_eq e.delivery_status "failed"
    then "failed"
    else if leb_ℤ threshold_ms (pos e.delay_ms) || str_eq e.delivery_status "delayed"
    then "delayed"
    else if str_eq e.delivery_status "delivered"
    then "normal"
    else e.delivery_status

unfoldable pub event_finding : AnalyzedEvent → Kind → Reason → WebhookFinding
event_finding e kind reason = record {
  kind = kind;
  payment_id = e.payment_id;
  order_id = e.order_id;
  merchant_id = e.merchant_id;
  event_ids = e.event_id ∷ [];
  event_type = some e.event_type;
  delivery_status = some e.delivery_status;
  delay_ms = some e.delay_ms;
  details = of_event e.attempt e.idempotency_key e.payment_status reason;
}

-- The order of the keys `(created_at, event_id)`.
unfoldable pub event_le : AnalyzedEvent → AnalyzedEvent → Bool
event_le a b =
    ltb a.created_at b.created_at || (a.created_at == b.created_at && str_le a.event_id b.event_id)

unfoldable pub sorted_events : List AnalyzedEvent → List AnalyzedEvent
unfolding event_le
sorted_events events = sort_by event_le events

abbrev pub is_delayed : ℤ → AnalyzedEvent → Bool
is_delayed threshold_ms e = str_eq (classify_delivery e threshold_ms) "delayed"

unfoldable pub find_delayed_events : List AnalyzedEvent → ℤ → List WebhookFinding
unfolding sorted_events classify_delivery event_finding
find_delayed_events events threshold_ms =
    map (λ e. event_finding e delayed no_reason)
      (filter (is_delayed threshold_ms) (sorted_events events))

abbrev pub is_failed : AnalyzedEvent → Bool
is_failed e = str_eq e.delivery_status "failed"

unfoldable pub find_failed_deliveries : List AnalyzedEvent → List WebhookFinding
unfolding sorted_events event_finding
find_failed_deliveries events =
    map (λ e. event_finding e failed no_reason) (filter is_failed (sorted_events events))

abbrev pub is_terminal : AnalyzedPayment → Bool
is_terminal payment = contains terminal_payment_statuses payment.status

unfoldable pub missing_finding : AnalyzedPayment → WebhookFinding
missing_finding payment = record {
  kind = missing;
  payment_id = payment.payment_id;
  order_id = some payment.order_id;
  merchant_id = some payment.merchant_id;
  event_ids = [];
  event_type = some ("payment." <> payment.status);
  delivery_status = none;
  delay_ms = none;
  details = of_missing payment.status 0;
}

abbrev pub is_empty {ℓ} : {A : Type ℓ} → List A → Bool
is_empty [] = true
is_empty (x ∷ xs) = false

-- The loop over the payments, with the events by payment.
unfoldable pub missing_among :
    List (String × List AnalyzedEvent) → List AnalyzedPayment → List WebhookFinding
unfolding missing_finding
missing_among by_payment [] = []
missing_among by_payment (payment ∷ payments) =
    let rest = missing_among by_payment payments in
    if is_terminal payment && is_empty (members str_eq payment.payment_id by_payment)
    then missing_finding payment ∷ rest
    else rest

unfoldable pub find_missing_events : List AnalyzedPayment → List AnalyzedEvent → List WebhookFinding
unfolding missing_among
find_missing_events payments events =
    missing_among (group_by str_eq (λ (e : AnalyzedEvent). e.payment_id) events) payments

-- `payments_by_id.get(id)`: the last payment with the identifier.
abbrev pub payment_by_id : String → List AnalyzedPayment → Option AnalyzedPayment
payment_by_id id [] = none
payment_by_id id (payment ∷ payments) = elim (payment_by_id id payments) [
  | some later ↦ some later
  | none ↦ if str_eq payment.payment_id id then some payment else none
]

-- `event_type.startswith("payment.")`
unfoldable pub is_payment_event : String → Bool
is_payment_event event_type = startswith event_type "payment."

unfoldable pub mismatches : Option AnalyzedPayment → AnalyzedEvent → List WebhookFinding
unfolding event_finding is_payment_event
mismatches none e = event_finding e mismatch payment_not_found ∷ []
mismatches (some payment) e =
    let expected = "payment." <> payment.status in
    if is_payment_event e.event_type && not (str_eq e.event_type expected)
    then event_finding e mismatch (event_type_mismatch payment.status expected) ∷ []
    else []

unfoldable pub mismatches_among : List AnalyzedPayment → List AnalyzedEvent → List WebhookFinding
unfolding mismatches
mismatches_among payments [] = []
mismatches_among payments (e ∷ events) =
    mismatches (payment_by_id e.payment_id payments) e ++ mismatches_among payments events

unfoldable pub correlate_events : List AnalyzedPayment → List AnalyzedEvent → List WebhookFinding
unfolding mismatches_among sorted_events
correlate_events payments events = mismatches_among payments (sorted_events events)

abbrev pub is_for : String → AnalyzedEvent → Bool
is_for payment_id e = str_eq e.payment_id payment_id

unfoldable pub events_for_payment : List AnalyzedEvent → String → List WebhookFinding
unfolding sorted_events event_finding
events_for_payment events payment_id =
    map (λ e. event_finding e event no_reason) (filter (is_for payment_id) (sorted_events events))
