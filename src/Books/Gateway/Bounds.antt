-- ===== src/Books/Gateway/Bounds.antt =====
-- The rates of the catalogue are fractions of a whole.
use payops_intelligence.Prelude.{
  ℕ, ◌+◌, ◌≤◌, ◌≡◌, refl, sym, ap, inl, inr, Bool, true, false, false≢true, Bool-cases, Option,
  none, some, List, is_given, [], ◌∷◌, String, str_eq, eq_of_str_eq, filter, leb, not, ◌||◌, ◌&&◌,
  All, All-map, arith, subst,
}
use payops_intelligence.Graph.Types.{TimeWindow}
use payops_intelligence.Webhooks.Rows.{Payment, WebhookEvent}
use payops_intelligence.Books.Rows.{
  Books, Ratio, CompareMetric, AnalyticsOperation, AnalyticsRequest, MethodCounts, ErrorShare,
  Value, rate, by_method, by_error, windows_compared, merchants_compared, MetricResult,
}
use payops_intelligence.Books.Integrity.{counted}
use payops_intelligence.Books.Metrics.{
  PaymentCounts, payment_predicates, counts_within, payment_counts, has_status, event_counts,
  success_rate_of, failure_rate_of, webhook_failure_rate_of, rate_result,
}
use payops_intelligence.Books.Breakdowns.{
  method_breakdown, error_breakdown, shares, count_of, code_rows, request_payments,
}
use payops_intelligence.Books.Breakdowns.Exact.{method_breakdown-IsExact}
use payops_intelligence.Books.Gateway.{
  AnalyticsAnswer, measured, refused, rate_for, metric_rate, compare_windows, compare_merchants,
  handled, analytics_error, previous_or_equal, handled_unless, run_operation,
}

abbrev IsFraction : Ratio → Type 0
IsFraction r = r.numerator ≤ r.denominator

-- Every ratio is of a part to its whole, also where the value is a breakdown or a comparison.
abbrev pub IsBounded : Value → Type 0
IsBounded (rate r) = IsFraction r
IsBounded (by_method buckets) = All (λ (b : MethodCounts). b.succeeded + b.failed ≤ b.total) buckets
IsBounded (by_error entries) = All (λ (e : ErrorShare). IsFraction e.share) entries
IsBounded (windows_compared current previous metric) = IsFraction current × IsFraction previous
IsBounded (merchants_compared merchant other left right metric) = IsFraction left × IsFraction right

-- The operations that divide rows of one table.
abbrev pub is_of_one_table : AnalyticsOperation → Bool
is_of_one_table AnalyticsOperation.get_refund_rate = false
is_of_one_table AnalyticsOperation.get_dispute_rate = false
is_of_one_table _ = true

one_status : (status : String) → (str_eq status "succeeded" && str_eq status "failed") ≡ false
one_status status = elim (Bool-cases (str_eq status "succeeded")) [
  | inl e ↦ rw e (ap (λ t. str_eq t "failed") (eq_of_str_eq status "succeeded" e))
  | inr e ↦ rw e refl
]

counts_within-le :
    (passes : Payment → Bool) (payments : List Payment)
    → (counts_within passes payments).succeeded + (counts_within passes payments).failed
      ≤ (counts_within passes payments).total
counts_within-le passes [] = omega arith
counts_within-le passes (p ∷ payments) =
    ground (arith, one_status p.status, counts_within-le passes payments)

counted-le {ℓ} :
    {A : Type ℓ} (p q : A → Bool) (xs : List A) → counted (λ x. p x && q x) xs ≤ counted p xs
counted-le p q [] = omega arith
counted-le p q (x ∷ xs) = ground (arith, counted-le p q xs)

rate_for-IsFraction :
    (metric : CompareMetric) (passes : Payment → Bool) (payments : List Payment)
    → IsFraction (rate_for metric (counts_within passes payments))
rate_for-IsFraction CompareMetric.success_rate passes payments =
    omega (arith, counts_within-le passes payments)
rate_for-IsFraction CompareMetric.failure_rate passes payments =
    omega (arith, counts_within-le passes payments)

metric_rate-IsFraction :
    (request : AnalyticsRequest) (window : TimeWindow) (merchant_id : Option String) (books : Books)
    → IsFraction (metric_rate request window merchant_id books)
unfolding metric_rate payment_counts
metric_rate-IsFraction request window merchant_id books =
    rate_for-IsFraction request.compare_metric (payment_predicates request window merchant_id)
      books.payments

shares-AreFractions :
    (total : ℕ) (rows : List (Option String × ℕ))
    → count_of rows ≤ total
    → All (λ (e : ErrorShare). IsFraction e.share) (shares total rows)
shares-AreFractions total [] h = tt
shares-AreFractions total ((none, count) ∷ rows) h = shares-AreFractions total rows (omega arith)
shares-AreFractions total ((some code, count) ∷ rows) h =
    (omega arith, shares-AreFractions total rows (omega arith))

-- What an answer that is not an error has.
abbrev IsBoundedAnswer : AnalyticsAnswer → Type 0
IsBoundedAnswer (measured r) = IsBounded r.value
IsBoundedAnswer (refused error) = Unit

module _ (request : AnalyticsRequest) (books : Books) where
  method_breakdown-IsBounded : IsBounded (method_breakdown request books).value
  method_breakdown-IsBounded =
      let (buckets, same, size, exact) = method_breakdown-IsExact request books in
      subst IsBounded (sym same) (
        All-map
          (λ (b : MethodCounts) h.
            subst (λ (c : PaymentCounts). c.succeeded + c.failed ≤ c.total) (sym h)
              (counts_within-le _ books.payments))
          buckets exact.each)

  compare_windows-IsBounded : IsBoundedAnswer (compare_windows request books)
  unfolding compare_windows rate_result
  compare_windows-IsBounded =
      elim (Bool-cases (
        leb (previous_or_equal request.previous_window request.window).end
          (previous_or_equal request.previous_window request.window).start)) [
            | inl e ↦ rw e tt
            | inr e ↦ rw e (
              metric_rate-IsFraction request request.window request.merchant_id books,
              metric_rate-IsFraction request _ request.merchant_id books,
            )
          ]

  compare_merchants-IsBounded : IsBoundedAnswer (compare_merchants request books)
  unfolding compare_merchants rate_result
  compare_merchants-IsBounded =
      elim (Bool-cases
        (not (is_given request.merchant_id) || not (is_given request.compare_merchant_id))) [
          | inl e ↦ rw e tt
          | inr e ↦ rw e (
            metric_rate-IsFraction request request.window request.merchant_id books,
            metric_rate-IsFraction request request.window request.compare_merchant_id books,
          )
        ]

  handled-IsBounded :
      (operation : AnalyticsOperation)
      → is_of_one_table operation ≡ true
      → IsBoundedAnswer (handled operation request books)
  unfolding handled success_rate_of failure_rate_of error_breakdown webhook_failure_rate_of
      rate_result payment_counts
  handled-IsBounded AnalyticsOperation.get_success_rate h = omega (
    arith,
    counts_within-le (payment_predicates request request.window request.merchant_id) books.payments,
  )
  handled-IsBounded AnalyticsOperation.get_failure_rate h = omega (
    arith,
    counts_within-le (payment_predicates request request.window request.merchant_id) books.payments,
  )
  handled-IsBounded AnalyticsOperation.breakdown_by_method h = method_breakdown-IsBounded
  handled-IsBounded AnalyticsOperation.breakdown_by_error_code h =
      shares-AreFractions _
        (code_rows (filter (has_status "failed") (request_payments request books))) (omega arith)
  handled-IsBounded AnalyticsOperation.compare_time_windows h = compare_windows-IsBounded
  handled-IsBounded AnalyticsOperation.compare_merchants h = compare_merchants-IsBounded
  handled-IsBounded AnalyticsOperation.get_refund_rate h = absurd (false≢true h)
  handled-IsBounded AnalyticsOperation.get_dispute_rate h = absurd (false≢true h)
  handled-IsBounded AnalyticsOperation.get_webhook_failure_rate h =
      counted-le (event_counts request books.payments)
        (λ (e : WebhookEvent). str_eq e.delivery_status "failed") books.events

handled_unless-IsBounded :
    (problem : Option String) (request : AnalyticsRequest) (books : Books)
    → is_of_one_table request.operation ≡ true
    → IsBoundedAnswer (handled_unless problem request books)
handled_unless-IsBounded (some error) request books h = tt
handled_unless-IsBounded none request books h = handled-IsBounded request books request.operation h

-- Every ratio in a result of the catalogue is of a part to its whole, for every operation but the
-- rates of refunds and disputes.
pub run_operation-IsBounded :
    (request : AnalyticsRequest) (books : Books) (r : MetricResult)
    → is_of_one_table request.operation ≡ true
    → run_operation request books ≡ measured r
    → IsBounded r.value
unfolding run_operation
run_operation-IsBounded request books r one h =
    subst IsBoundedAnswer h (handled_unless-IsBounded (analytics_error request) request books one)
