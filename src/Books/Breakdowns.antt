-- ===== src/Books/Breakdowns.antt =====
-- packages/payops_core/tools/sql_gateway.py: the breakdowns by method and by error code.
pub mod Sizes
pub mod Methods
pub mod Order
pub mod Exact
use payops_intelligence.Prelude.{
  ℕ, ◌+◌, Bool, true, false, ◌&&◌, Option, none, some, List, [], ◌∷◌, ◌++◌, map, String, str_eq,
  str_le, filter, length, if◌then◌else◌,
}
use payops_intelligence.Prelude.Sort.{sort_by, group_by}
use payops_intelligence.Webhooks.Rows.{Payment}
use payops_intelligence.Books.Rows.{
  Books, AnalyticsRequest, MethodCounts, ErrorShare, by_method, by_error, MetricResult,
}
use payops_intelligence.Books.Metrics.{payment_predicates, ratio, rate_result, has_status}

abbrev pub request_payments : AnalyticsRequest → Books → List Payment
request_payments request books =
    filter (payment_predicates request request.window request.merchant_id) books.payments

abbrev pub same_status : String × String → String × String → Bool
same_status (m, s) (m', s') = str_eq m m' && str_eq s s'

abbrev pub method_status : Payment → String × String
method_status p = (p.method_id, p.status)

-- `group_by(Payment.method_id, Payment.status)` with `func.count()`.
abbrev pub sized {ℓ κ} : {A : Type ℓ} {K : Type κ} → List (K × List A) → List (K × ℕ)
sized groups = map (λ (key, xs). (key, length xs)) groups

abbrev pub status_rows : List Payment → List ((String × String) × ℕ)
status_rows payments = sized (group_by same_status method_status payments)

abbrev pub if_status : String → String → ℕ → ℕ
if_status expected status count = if str_eq status expected then count else 0

-- A bucket after a row of its method.
abbrev pub raised : MethodCounts → String → ℕ → MethodCounts
raised bucket status count = record {
  method_id = bucket.method_id;
  succeeded = bucket.succeeded + if_status "succeeded" status count;
  failed = bucket.failed + if_status "failed" status count;
  total = bucket.total + count;
}

abbrev pub new_bucket : String → MethodCounts
new_bucket method_id = record { method_id = method_id; succeeded = 0; failed = 0; total = 0 }

-- `grouped.setdefault(method_id, ...)`, raised.
abbrev pub raise_bucket : String → String → ℕ → List MethodCounts → List MethodCounts
raise_bucket method_id status count [] = raised (new_bucket method_id) status count ∷ []
raise_bucket method_id status count (bucket ∷ buckets) =
    if str_eq bucket.method_id method_id
    then raised bucket status count ∷ buckets
    else bucket ∷ raise_bucket method_id status count buckets

-- The loop over the rows, with the buckets so far.
abbrev pub raise_buckets : List ((String × String) × ℕ) → List MethodCounts → List MethodCounts
raise_buckets [] buckets = buckets
raise_buckets (((method_id, status), count) ∷ rows) buckets =
    raise_buckets rows (raise_bucket method_id status count buckets)

abbrev pub bucket_le : MethodCounts → MethodCounts → Bool
bucket_le left right = str_le left.method_id right.method_id

abbrev pub total_of : List MethodCounts → ℕ
total_of [] = 0
total_of (bucket ∷ buckets) = bucket.total + total_of buckets

abbrev pub grouped_methods : List Payment → List MethodCounts
grouped_methods payments = raise_buckets (status_rows payments) []

unfoldable pub method_breakdown : AnalyticsRequest → Books → MetricResult
unfolding payment_predicates rate_result
method_breakdown request books =
    let grouped = grouped_methods (request_payments request books) in
    rate_result request "payment_method_breakdown" (by_method (sort_by bucket_le grouped))
      (some (total_of grouped)) "payments" "breakdown" none none none

-- `error_code`, which is equal to itself also where there is none.
abbrev pub same_code : Option String → Option String → Bool
same_code none none = true
same_code none (some other) = false
same_code (some code) none = false
same_code (some code) (some other) = str_eq code other

abbrev pub code_rows : List Payment → List (Option String × ℕ)
code_rows payments = sized (group_by same_code (λ (p : Payment). p.error_code) payments)

abbrev pub count_of : List (Option String × ℕ) → ℕ
count_of [] = 0
count_of ((code, count) ∷ rows) = count + count_of rows

-- The entries of the rows with a code.
abbrev pub shares : ℕ → List (Option String × ℕ) → List ErrorShare
shares total [] = []
shares total ((none, count) ∷ rows) = shares total rows
shares total ((some code, count) ∷ rows) =
    record { code = code; count = count; share = ratio count total } ∷ shares total rows

unfoldable pub error_breakdown : AnalyticsRequest → Books → MetricResult
unfolding payment_predicates rate_result
error_breakdown request books =
    let rows = code_rows (filter (has_status "failed") (request_payments request books)) in
    rate_result request "error_code_breakdown" (by_error (shares (count_of rows) rows))
      (some (count_of rows)) "payments" "breakdown" none none none
