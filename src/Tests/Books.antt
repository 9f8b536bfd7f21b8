-- ===== src/Tests/Books.antt =====
-- The integrity report and the catalogue of rates on concrete tables.
use payops_intelligence.Prelude.{
  ◌≡◌, ◌↔◌, refl, true, false, none, some, List, [], ◌∷◌, String, ℕ, pos,
}
use payops_intelligence.Webhooks.Rows.{Payment}
use payops_intelligence.Books.Rows.{
  Refund, Books, IntegrityReport, AnalyticsRequest, AnalyticsOperation, CompareMetric, MethodCounts,
  by_method, by_error, windows_compared,
}
use payops_intelligence.Books.Integrity.{validate_integrity, report_of}
use payops_intelligence.Books.Integrity.Consistency.{IsConsistent, validate_integrity-IsConsistent}
use payops_intelligence.Graph.Types.{TimeWindow}
use payops_intelligence.Books.Metrics.{success_rate_of, rate_result, request_counts, ratio}
use payops_intelligence.Books.Breakdowns.{method_breakdown, error_breakdown}
use payops_intelligence.Books.Breakdowns.Exact.{IsExact, method_breakdown-IsExact}
use payops_intelligence.Books.Gateway.{run_operation, measured, refused}
use payops_intelligence.Books.Gateway.Bounds.{IsBounded, run_operation-IsBounded}
use payops_intelligence.Tests.Webhooks.{paid}

abbrev declined : String → ℕ → Payment
declined id time = record {
  payment_id = id;
  order_id = "O1";
  merchant_id = "M1";
  method_id = "card";
  amount_cents = pos 500;
  status = "failed";
  error_code = some "U30";
  created_at = time;
  captured_at = none;
}

abbrev refund : String → String → Refund
refund id status = record {
  payment_id = id;
  amount_cents = pos 500;
  status = status;
  created_at = 8;
}

-- Two payments by one method and two failed ones by another, with the refunds given.
abbrev books : List Refund → Books
books refunds = record {
  orders = record { order_id = "O1"; merchant_id = "M1" } ∷ [];
  payments = paid "p1" 6 ∷ declined "p2" 7 ∷ paid "p3" 8 ∷ declined "p4" 9 ∷ [];
  refunds = refunds;
  disputes = [];
  events = [];
}

abbrev window : TimeWindow
window = record { start = 5; end = 10 }

abbrev asking : AnalyticsOperation → AnalyticsRequest
asking operation = record {
  operation = operation;
  window = window;
  merchant_id = some "M1";
  method_id = none;
  compare_merchant_id = none;
  previous_window = none;
  compare_metric = CompareMetric.success_rate;
}

one_refund : (report_of none window (books (refund "p1" "processed" ∷ []))).passed ≡ true
unfolding report_of
one_refund = refl

-- A refund that failed counts against its payment.
failed_refund :
    (report_of none window (books (refund "p1" "failed" ∷ refund "p1" "processed" ∷ []))).passed
    ≡ false
unfolding report_of
failed_refund = refl

by_methods :
    (method_breakdown (asking AnalyticsOperation.breakdown_by_method) (books [])).value
    ≡ by_method (
        record { method_id = "card"; succeeded = 0; failed = 2; total = 2 }
        ∷ record { method_id = "upi"; succeeded = 2; failed = 0; total = 2 }
        ∷ [])
unfolding method_breakdown
by_methods = refl

by_codes :
    (error_breakdown (asking AnalyticsOperation.breakdown_by_error_code) (books [])).value
    ≡ by_error (record { code = "U30"; count = 2; share = ratio 2 2 } ∷ [])
unfolding error_breakdown
by_codes = refl

-- The window of the same length before this one has no payments.
compared :
    run_operation (asking AnalyticsOperation.compare_time_windows) (books [])
    ≡ measured (
        rate_result
          (asking AnalyticsOperation.compare_time_windows)
          "time_window_comparison"
          (windows_compared (ratio 2 4) (ratio 0 0) CompareMetric.success_rate)
          none
          "payments"
          "comparison"
          none
          (some (record { start = 0; end = 5 }))
          none)
unfolding run_operation
compared = refl

no_merchants :
    run_operation (asking AnalyticsOperation.compare_merchants) (books [])
    ≡ refused "compare_merchants requires merchant_id and compare_merchant_id"
unfolding run_operation
no_merchants = refl

abbrev report : IntegrityReport
report = report_of (some "M1") window (books [])

validate_integrity-IsConsistent_example :
    (report.passed ≡ true) ↔ IsConsistent (some "M1") window (books [])
unfolding validate_integrity
validate_integrity-IsConsistent_example =
    validate_integrity-IsConsistent (some "M1") window (books []) report refl

method_breakdown-IsExact_example :
    (buckets : List MethodCounts) × ((method_breakdown
        (asking AnalyticsOperation.breakdown_by_method)
        (books [])).value
      ≡ by_method buckets)
    × ((method_breakdown (asking AnalyticsOperation.breakdown_by_method) (books [])).sample_size
        ≡ some (request_counts (asking AnalyticsOperation.breakdown_by_method) (books [])).total)
    × IsExact (asking AnalyticsOperation.breakdown_by_method) (books []) buckets
method_breakdown-IsExact_example =
    method_breakdown-IsExact (asking AnalyticsOperation.breakdown_by_method) (books [])

run_operation-IsBounded_example :
    IsBounded (success_rate_of (asking AnalyticsOperation.get_success_rate) (books [])).value
unfolding run_operation
run_operation-IsBounded_example =
    run_operation-IsBounded (asking AnalyticsOperation.get_success_rate) (books [])
      (success_rate_of (asking AnalyticsOperation.get_success_rate) (books [])) refl refl
