-- ===== src/Books/Integrity.antt =====
-- packages/payops_core/tools/integrity.py: read-time consistency checks. The number of rows of a
-- query is the length of the filtered table; a join along a foreign key finds at most one row.
pub mod Payments
pub mod Consistency
use payops_intelligence.Prelude.{
  ℕ, Bool, true, false, not, ◌&&◌, Option, none, some, is_some, List, [], ◌∷◌, String, str_eq,
  is_given, is_id, filter, length, any, all, ltb, leb, ◌==◌, ℤ, pos, ◌+ℤ◌, ltb_ℤ, leb_ℤ,
  if◌then◌else◌,
}
use payops_intelligence.Graph.Types.{TimeWindow}
use payops_intelligence.Webhooks.Rows.{Payment, WebhookEvent}
use payops_intelligence.Webhooks.Gateway.{payment_of, matches}
use payops_intelligence.Books.Rows.{Order, Refund, Books, IntegrityCheck, IntegrityReport}

abbrev pub spans : TimeWindow → ℕ → Bool
spans window stamp = leb window.start stamp && ltb stamp window.end

-- `_payment_predicates`
unfoldable pub in_scope : Option String → TimeWindow → Payment → Bool
unfolding matches
in_scope merchant_id window p = spans window p.created_at && matches merchant_id p.merchant_id

-- `select(func.count())` of the rows that pass the test.
abbrev pub counted {ℓ} : {A : Type ℓ} → (A → Bool) → List A → ℕ
counted p xs = length (filter p xs)

abbrev pub order_of : String → List Order → Option Order
order_of id [] = none
order_of id (o ∷ orders) = if str_eq o.order_id id then some o else order_of id orders

abbrev pub lacks_error : Payment → Bool
lacks_error p = str_eq p.status "failed" && not (is_some p.error_code)

abbrev pub lacks_capture : Payment → Bool
lacks_capture p = str_eq p.status "succeeded" && not (is_some p.captured_at)

abbrev pub is_not_positive : Payment → Bool
is_not_positive p = leb_ℤ p.amount_cents (pos 0)

abbrev pub differs_from : Payment → Option Order → Bool
differs_from p none = false
differs_from p (some o) = not (str_eq p.merchant_id o.merchant_id)

abbrev pub is_of : String → Refund → Bool
is_of id refund = str_eq refund.payment_id id

-- `func.sum(Refund.amount_cents)` of the payment's refunds.
abbrev pub refunded : String → List Refund → ℤ
refunded id [] = pos 0
refunded id (refund ∷ refunds) =
    if is_of id refund then refund.amount_cents +ℤ refunded id refunds else refunded id refunds

-- A payment that the totals have, with more than its amount.
abbrev pub is_over_refunded : List Refund → Payment → Bool
is_over_refunded refunds p =
    any (is_of p.payment_id) refunds && ltb_ℤ p.amount_cents (refunded p.payment_id refunds)

unfoldable pub over_refunded : List Refund → (Payment → Bool) → List Payment → ℕ
unfolding ◌+ℤ◌
over_refunded refunds scope payments = counted (λ p. scope p && is_over_refunded refunds p) payments

abbrev pub is_orphan_event : TimeWindow → List Payment → WebhookEvent → Bool
is_orphan_event window payments e =
    spans window e.created_at && not (is_some (payment_of e.payment_id payments))

-- `_orphan_webhooks`
unfoldable pub orphan_webhooks : TimeWindow → List Payment → List WebhookEvent → ℕ
orphan_webhooks window payments events = counted (is_orphan_event window payments) events

-- `_count_check`
unfoldable pub count_check :
    (check_id name : String) → ℕ → (invariant explanation : String) → IntegrityCheck
count_check check_id name observed invariant explanation = record {
  check_id = check_id;
  name = name;
  passed = observed == 0;
  observed = observed;
  invariant = invariant;
  explanation = explanation;
}

abbrev pub schema_invariants : List String
schema_invariants =
    "Consistency: CHECK failed payments must have an error_code"
    ∷ "Consistency: CHECK payment and order amounts are positive"
    ∷ "Consistency: FK RESTRICT keeps payments tied to orders and merchants"
    ∷ "Atomicity: a payment cannot be deleted while refunds or webhooks still reference it"
    ∷ "Durability: investigation_runs persist after the API store commits"
    ∷ "Isolation: not claimed — this check is single-writer read validation" ∷ []

unfoldable pub checks_of : Option String → TimeWindow → Books → List IntegrityCheck
unfolding in_scope over_refunded orphan_webhooks count_check
checks_of merchant_id window books =
    let scope = in_scope merchant_id window in
    count_check "failed_has_error" "Failed payments have an error code"
      (counted (λ p. scope p && lacks_error p) books.payments) "failed ⇒ error_code IS NOT NULL"
      "Failed rows without an error code break ops attribution."
    ∷ count_check "succeeded_has_capture" "Succeeded payments have captured_at"
        (counted (λ p. scope p && lacks_capture p) books.payments)
        "succeeded ⇒ captured_at IS NOT NULL"
        "A captured payment without captured_at is an incomplete write."
    ∷ count_check "amount_positive" "Payment amounts are positive"
        (counted (λ p. scope p && is_not_positive p) books.payments) "amount_cents > 0"
        "Non-positive amounts violate the payments CHECK constraint."
    ∷ count_check "merchant_matches_order" "Payment merchant matches order merchant"
        (counted (λ p. scope p && differs_from p (order_of p.order_id books.orders)) books.payments)
        "payment.merchant_id = order.merchant_id"
        "A merchant mismatch is a cross-tenant consistency break."
    ∷ count_check "refunds_within_payment" "Refund totals do not exceed the payment"
        (over_refunded books.refunds scope books.payments)
        "sum(refunds.amount_cents) <= payment.amount_cents"
        "Refunds larger than the original payment are inconsistent."
    ∷ count_check "webhooks_reference_payments" "Webhook events reference an existing payment"
        (orphan_webhooks window books.payments books.events)
        "webhook_events.payment_id exists in payments"
        "Orphan webhook rows would mean a broken foreign key."
    ∷ []

-- A report, or the text of a `ValueError`.
pub data Validation : Type 0 where
  validated : IntegrityReport → Validation
  invalid : String → Validation

-- The identifier is checked where it is given.
unfoldable pub merchant_problem : Option String → Option String
unfolding is_id is_given
merchant_problem none = none
merchant_problem (some id) =
    if is_given (some id) && not (is_id id) then some "invalid merchant_id" else none

unfoldable pub report_of : Option String → TimeWindow → Books → IntegrityReport
unfolding checks_of in_scope
report_of merchant_id window books = record {
  merchant_id = merchant_id;
  window = window;
  passed = all (λ (c : IntegrityCheck). c.passed) (checks_of merchant_id window books);
  sample_size = counted (in_scope merchant_id window) books.payments;
  checks = checks_of merchant_id window books;
  schema_invariants = schema_invariants;
  notes =
      "Read-time consistency validation against schema invariants. This is not an ACID commit/rollback classroom simulator.";
}

abbrev pub validated_unless : Option String → Option String → TimeWindow → Books → Validation
validated_unless (some error) merchant_id window books = invalid error
validated_unless none merchant_id window books =
    if leb window.end window.start
    then invalid "time window end must be after start"
    else validated (report_of merchant_id window books)

unfoldable pub validate_integrity : Option String → TimeWindow → Books → Validation
unfolding merchant_problem report_of
validate_integrity merchant_id window books =
    validated_unless (merchant_problem merchant_id) merchant_id window books
