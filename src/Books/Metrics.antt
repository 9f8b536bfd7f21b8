-- ===== src/Books/Metrics.antt =====
-- packages/payops_core/tools/sql_gateway.py: the catalogue of rates over the payments on record.
-- The number of rows of a query is the length of the filtered table, and a join along a foreign key
-- finds at most one row. Grouped rows stand in the order of their first payments. A window that
-- starts within its own length of 1970 has no equal window before it here.
use payops_intelligence.Prelude.{
  ℕ, Bool, false, ◌&&◌, Option, none, some, List, String, str_eq, ◌==◌, if◌then◌else◌,
}
use payops_intelligence.Graph.Types.{TimeWindow}
use payops_intelligence.Webhooks.Rows.{Payment, WebhookEvent}
use payops_intelligence.Webhooks.Gateway.{payment_of, matches}
use payops_intelligence.Books.Rows.{
  Refund, Dispute, Books, Ratio, AnalyticsRequest, Value, rate, MetricResult,
}
use payops_intelligence.Books.Integrity.{spans, in_scope, counted}

-- `_payment_predicates`
unfoldable pub payment_predicates : AnalyticsRequest → TimeWindow → Option String → Payment → Bool
unfolding in_scope matches
payment_predicates request window merchant_id p =
    in_scope merchant_id window p && matches request.method_id p.method_id

pub record PaymentCounts : Type 0 where
  pub total : ℕ
  pub succeeded : ℕ
  pub failed : ℕ

abbrev pub has_status : String → Payment → Bool
has_status status p = str_eq p.status status

-- The payments that pass the test, with those of two statuses.
abbrev pub counts_within : (Payment → Bool) → List Payment → PaymentCounts
counts_within passes payments = record {
  total = counted passes payments;
  succeeded = counted (λ p. passes p && has_status "succeeded" p) payments;
  failed = counted (λ p. passes p && has_status "failed" p) payments;
}

unfoldable pub payment_counts :
    AnalyticsRequest → TimeWindow → Option String → List Payment → PaymentCounts
unfolding payment_predicates
payment_counts request window merchant_id payments =
    counts_within (payment_predicates request window merchant_id) payments

abbrev pub request_counts : AnalyticsRequest → Books → PaymentCounts
request_counts request books =
    payment_counts request request.window request.merchant_id books.payments

abbrev pub ratio : ℕ → ℕ → Ratio
ratio numerator denominator = record { numerator = numerator; denominator = denominator }

-- `(notes or "no rows in window") if sample_size == 0 else notes`
unfoldable pub notes_for : Option String → Option ℕ → Option String
notes_for (some text) size = some text
notes_for none none = none
notes_for none (some size) = if size == 0 then some "no rows in window" else none

-- `_rate_result`, whose other filters are those of the comparisons.
unfoldable pub rate_result :
    (request : AnalyticsRequest) (metric : String)
    → Value
    → (sample_size : Option ℕ) (source unit : String) (notes : Option String)
    → (previous_filter : Option TimeWindow) (compare_filter : Option String) → MetricResult
unfolding notes_for
rate_result request metric value size source unit notes previous_filter compare_filter = record {
  metric = metric;
  value = value;
  window = request.window;
  merchant_filter = request.merchant_id;
  method_filter = request.method_id;
  previous_filter = previous_filter;
  compare_filter = compare_filter;
  tool = "sql_gateway";
  source = source;
  operation = request.operation;
  merchant_id = request.merchant_id;
  unit = unit;
  notes = notes_for notes size;
  sample_size = size;
}

abbrev pub plain_result :
    AnalyticsRequest → String → Ratio → ℕ → String → Option String → MetricResult
plain_result request metric value size source notes =
    rate_result request metric (rate value) (some size) source "ratio" notes none none

unfoldable pub success_rate_of : AnalyticsRequest → Books → MetricResult
unfolding payment_counts rate_result
success_rate_of request books =
    let counts = request_counts request books in
    plain_result request "success_rate" (ratio counts.succeeded counts.total) counts.total
      "payments" none

unfoldable pub failure_rate_of : AnalyticsRequest → Books → MetricResult
unfolding payment_counts rate_result
failure_rate_of request books =
    let counts = request_counts request books in
    plain_result request "failure_rate" (ratio counts.failed counts.total) counts.total "payments"
      none

-- The rows of a `join(Payment)` whose payment passes the test.
abbrev pub joins : (Payment → Bool) → Option Payment → Bool
joins passes none = false
joins passes (some p) = passes p

abbrev pub refund_counts : AnalyticsRequest → List Payment → Refund → Bool
refund_counts request payments refund =
    spans request.window refund.created_at
    && (joins (payment_predicates request request.window request.merchant_id)
          (payment_of refund.payment_id payments)
        && str_eq refund.status "processed")

abbrev pub dispute_counts : AnalyticsRequest → List Payment → Dispute → Bool
dispute_counts request payments dispute =
    spans request.window dispute.created_at
    && joins (payment_predicates request request.window request.merchant_id)
        (payment_of dispute.payment_id payments)

unfoldable pub refund_rate_of : AnalyticsRequest → Books → MetricResult
unfolding payment_counts payment_predicates rate_result
refund_rate_of request books =
    let succeeded = (request_counts request books).succeeded in
    plain_result request "refund_rate"
      (ratio (counted (refund_counts request books.payments) books.refunds) succeeded) succeeded
      "refunds" (some "processed refunds divided by succeeded payments in the window")

unfoldable pub dispute_rate_of : AnalyticsRequest → Books → MetricResult
unfolding payment_counts payment_predicates rate_result
dispute_rate_of request books =
    let succeeded = (request_counts request books).succeeded in
    plain_result request "dispute_rate"
      (ratio (counted (dispute_counts request books.payments) books.disputes) succeeded) succeeded
      "disputes" (some "disputes divided by succeeded payments in the window")

abbrev pub event_counts : AnalyticsRequest → List Payment → WebhookEvent → Bool
event_counts request payments e =
    joins (payment_predicates request request.window request.merchant_id)
      (payment_of e.payment_id payments)

unfoldable pub webhook_failure_rate_of : AnalyticsRequest → Books → MetricResult
unfolding payment_predicates rate_result
webhook_failure_rate_of request books =
    let total = counted (event_counts request books.payments) books.events in
    let failed =
      counted
        (λ (e : WebhookEvent).
          event_counts request books.payments e && str_eq e.delivery_status "failed")
        books.events in
    plain_result request "webhook_failure_rate" (ratio failed total) total "webhook_events" none
