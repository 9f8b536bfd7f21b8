-- ===== src/Books/Gateway.antt =====
-- packages/payops_core/tools/sql_gateway.py: the comparisons, and the catalogue with its guards.
pub mod Bounds
use payops_intelligence.Prelude.{
  ℕ, ◌-◌, Bool, not, ◌||◌, Option, none, some, is_given, String, leb, if◌then◌else◌,
}
use payops_intelligence.Graph.Types.{TimeWindow}
use payops_intelligence.Webhooks.Gateway.{id_error, or_error}
use payops_intelligence.Books.Rows.{
  Books, Ratio, CompareMetric, AnalyticsOperation, AnalyticsRequest, windows_compared,
  merchants_compared, MetricResult,
}
use payops_intelligence.Books.Metrics.{
  PaymentCounts, payment_counts, ratio, rate_result, success_rate_of, failure_rate_of,
  refund_rate_of, dispute_rate_of, webhook_failure_rate_of,
}
use payops_intelligence.Books.Breakdowns.{method_breakdown, error_breakdown}

-- A result, or the text of a `ValueError`.
pub data AnalyticsAnswer : Type 0 where
  measured : MetricResult → AnalyticsAnswer
  refused : String → AnalyticsAnswer

abbrev pub rate_for : CompareMetric → PaymentCounts → Ratio
rate_for CompareMetric.failure_rate counts = ratio counts.failed counts.total
rate_for CompareMetric.success_rate counts = ratio counts.succeeded counts.total

unfoldable pub metric_rate : AnalyticsRequest → TimeWindow → Option String → Books → Ratio
unfolding payment_counts
metric_rate request window merchant_id books =
    rate_for request.compare_metric (payment_counts request window merchant_id books.payments)

-- `_equal_previous`
unfoldable pub equal_previous : TimeWindow → TimeWindow
equal_previous window = record {
  start = window.start - (window.end - window.start);
  end = window.start;
}

abbrev pub previous_or_equal : Option TimeWindow → TimeWindow → TimeWindow
previous_or_equal none window = equal_previous window
previous_or_equal (some previous) window = previous

unfoldable pub compare_windows : AnalyticsRequest → Books → AnalyticsAnswer
unfolding metric_rate equal_previous rate_result
compare_windows request books =
    let previous = previous_or_equal request.previous_window request.window in
    if leb previous.end previous.start
    then refused "previous window end must be after start"
    else measured (
        rate_result request "time_window_comparison"
          (windows_compared (metric_rate request request.window request.merchant_id books)
            (metric_rate request previous request.merchant_id books) request.compare_metric)
          none "payments" "comparison" none (some previous) none)

abbrev pub text_of : Option String → String
text_of none = ""
text_of (some text) = text

unfoldable pub compare_merchants : AnalyticsRequest → Books → AnalyticsAnswer
unfolding is_given metric_rate rate_result
compare_merchants request books =
    if not (is_given request.merchant_id) || not (is_given request.compare_merchant_id)
    then refused "compare_merchants requires merchant_id and compare_merchant_id"
    else measured (
        rate_result request "merchant_comparison"
          (merchants_compared (text_of request.merchant_id) (text_of request.compare_merchant_id)
            (metric_rate request request.window request.merchant_id books)
            (metric_rate request request.window request.compare_merchant_id books)
            request.compare_metric)
          none "payments" "comparison" none none request.compare_merchant_id)

unfoldable pub handled : AnalyticsOperation → AnalyticsRequest → Books → AnalyticsAnswer
unfolding success_rate_of failure_rate_of method_breakdown error_breakdown compare_windows
    compare_merchants refund_rate_of dispute_rate_of webhook_failure_rate_of
handled AnalyticsOperation.get_success_rate request books = measured (success_rate_of request books)
handled AnalyticsOperation.get_failure_rate request books = measured (failure_rate_of request books)
handled AnalyticsOperation.breakdown_by_method request books =
    measured (method_breakdown request books)
handled AnalyticsOperation.breakdown_by_error_code request books =
    measured (error_breakdown request books)
handled AnalyticsOperation.compare_time_windows request books = compare_windows request books
handled AnalyticsOperation.compare_merchants request books = compare_merchants request books
handled AnalyticsOperation.get_refund_rate request books = measured (refund_rate_of request books)
handled AnalyticsOperation.get_dispute_rate request books = measured (dispute_rate_of request books)
handled AnalyticsOperation.get_webhook_failure_rate request books =
    measured (webhook_failure_rate_of request books)

-- The guards of `run`, in their order. The type of an operation has the allowed ones only.
unfoldable pub analytics_error : AnalyticsRequest → Option String
unfolding id_error
analytics_error request = or_error (id_error request.merchant_id "merchant_id") (
    or_error (id_error request.method_id "method_id") (
      or_error (id_error request.compare_merchant_id "compare_merchant_id") (
        if leb request.window.end request.window.start
        then some "time window end must be after start"
        else none)))

abbrev pub handled_unless : Option String → AnalyticsRequest → Books → AnalyticsAnswer
handled_unless (some error) request books = refused error
handled_unless none request books = handled request.operation request books

unfoldable pub run_operation : AnalyticsRequest → Books → AnalyticsAnswer
unfolding analytics_error handled
run_operation request books = handled_unless (analytics_error request) request books
