-- ===== src/Books/Integrity/Consistency.antt =====
-- What a passed integrity report says of the payments and the events.
use payops_intelligence.Prelude.{
  ◌≡◌, refl, sym, ap, ◌↔◌, inl, inr, Bool, true, false, false≢true, ◌&&◌, Bool-cases, Option, none,
  some, is_some, List, [], ◌∷◌, String, All, All-map, ◌==◌, leb, subst, arith,
}
use payops_intelligence.Graph.Types.{TimeWindow}
use payops_intelligence.Webhooks.Rows.{Payment, WebhookEvent}
use payops_intelligence.Webhooks.Gateway.{payment_of}
use payops_intelligence.Books.Rows.{Books, IntegrityReport}
use payops_intelligence.Books.Integrity.Payments.{
  IsInOrder, outside_or, unless, IsUnviolated, IsInOrder-IsUnviolated,
}
use payops_intelligence.Books.Integrity.{
  spans, in_scope, counted, order_of, lacks_error, lacks_capture, is_not_positive, differs_from,
  is_over_refunded, over_refunded, is_orphan_event, orphan_webhooks, count_check, checks_of,
  report_of, Validation, validated, invalid, merchant_problem, validated_unless, validate_integrity,
}

-- Every payment in the scope is in order, and every event in the window has its payment.
pub record IsConsistent (merchant_id : Option String) (window : TimeWindow) (books : Books)
    : Type 0 where
  pub payments :
      All (λ (p : Payment). in_scope merchant_id window p ≡ true → IsInOrder books p) books.payments
  pub events :
      All
        (λ (e : WebhookEvent).
          spans window e.created_at ≡ true
          → is_some (payment_of e.payment_id books.payments) ≡ true)
        books.events

counted_none {ℓ} :
    {A : Type ℓ} (p : A → Bool) (xs : List A)
    → ((counted p xs == 0) ≡ true) ↔ All (λ x. p x ≡ false) xs
counted_none p [] = (λ h. tt, λ h. refl)
counted_none p (x ∷ xs) =
    let (to, from) = counted_none p xs in
    elim (Bool-cases (p x)) [
      | inl e ↦ rw e (λ h. absurd (ground arith), λ h. absurd (false≢true (sym h.0)))
      | inr e ↦ rw e (λ h. (refl, to h), λ h. from h.1)
    ]

abbrev report_or : IntegrityReport → Validation → IntegrityReport
report_or r (validated r') = r'
report_or r (invalid error) = r

module _ (merchant_id : Option String) (window : TimeWindow) (books : Books) where
  abbrev Clear : (Payment → Bool) → Payment → Type 0
  Clear violates p = in_scope merchant_id window p ≡ true → violates p ≡ false

  counted-Clear :
      (violates : Payment → Bool) (payments : List Payment)
      → ((counted (λ p. in_scope merchant_id window p && violates p) payments == 0) ≡ true)
        ↔ All (Clear violates) payments
  counted-Clear violates payments =
      let (to, from) = counted_none (λ p. in_scope merchant_id window p && violates p) payments in
      (
        λ h.
            All-map (λ p clear. (outside_or (in_scope merchant_id window p) (violates p)).0 clear)
              payments (to h),
        λ h. from (
            All-map (λ p clear. (outside_or (in_scope merchant_id window p) (violates p)).1 clear)
              payments h),
      )

  -- The payments clear of five violations at once.
  AllClear :
      (a b c d e : Payment → Bool) (payments : List Payment)
      → (All (Clear a) payments
          × All (Clear b) payments
          × All (Clear c) payments
          × All (Clear d) payments
          × All (Clear e) payments)
        ↔ All
            (λ p.
              in_scope merchant_id window p ≡ true
              → (a p ≡ false) × (b p ≡ false) × (c p ≡ false) × (d p ≡ false) × (e p ≡ false))
            payments
  AllClear a b c d e [] = (λ h. tt, λ h. (tt, tt, tt, tt, tt))
  AllClear a b c d e (p ∷ payments) =
      let (to, from) = AllClear a b c d e payments in
      (
        λ (ha, hb, hc, hd, he).
            (λ s. (ha.0 s, hb.0 s, hc.0 s, hd.0 s, he.0 s), to (ha.1, hb.1, hc.1, hd.1, he.1)),
        λ h.
            let (ka, kb, kc, kd, ke) = from h.1 in
            (
              (λ s. (h.0 s).0, ka),
              (λ s. (h.0 s).1, kb),
              (λ s. (h.0 s).2, kc),
              (λ s. (h.0 s).3, kd),
              (λ s. (h.0 s).4, ke),
            ),
      )

  six :
      (a b c d e f : Bool)
      → ((a && (b && (c && (d && (e && (f && true)))))) ≡ true)
        ↔ ((a ≡ true) × (b ≡ true) × (c ≡ true) × (d ≡ true) × (e ≡ true) × (f ≡ true))
  six a b c d e f = (λ h. ground arith, λ h. ground arith)

  -- No payment in the scope, and no event in the window, is counted by a check.
  abbrev IsUncounted : Type 0
  IsUncounted =
      All (λ (p : Payment). in_scope merchant_id window p ≡ true → IsUnviolated books p)
        books.payments
      × All (λ (e : WebhookEvent). is_orphan_event window books.payments e ≡ false) books.events

  abbrev owned_by_other : Payment → Bool
  owned_by_other p = differs_from p (order_of p.order_id books.orders)

  passed-IsUncounted : ((report_of merchant_id window books).passed ≡ true) ↔ IsUncounted
  unfolding report_of checks_of count_check over_refunded orphan_webhooks
  passed-IsUncounted =
      let clear = λ (violates : Payment → Bool). counted-Clear violates books.payments in
      let together =
        AllClear lacks_error lacks_capture is_not_positive owned_by_other
          (is_over_refunded books.refunds) books.payments in
      let events = counted_none (is_orphan_event window books.payments) books.events in
      (
        λ h.
            let (a, b, c, d, e, f) = (six _ _ _ _ _ _).0 h in
            (
              together.0 (
                (clear lacks_error).0 a,
                (clear lacks_capture).0 b,
                (clear is_not_positive).0 c,
                (clear owned_by_other).0 d,
                (clear (is_over_refunded books.refunds)).0 e,
              ),
              events.0 f,
            ),
        λ (payments, none_orphaned).
            let (a, b, c, d, e) = together.1 payments in
            (six _ _ _ _ _ _).1 (
              (clear lacks_error).1 a,
              (clear lacks_capture).1 b,
              (clear is_not_positive).1 c,
              (clear owned_by_other).1 d,
              (clear (is_over_refunded books.refunds)).1 e,
              events.1 none_orphaned,
            ),
      )

  report_of-IsConsistent :
      ((report_of merchant_id window books).passed ≡ true) ↔ IsConsistent merchant_id window books
  report_of-IsConsistent =
      let (to, from) = passed-IsUncounted in
      (
        λ h.
            let (payments, none_orphaned) = to h in
            record {
              payments =
                  All-map (λ p clear s. (IsInOrder-IsUnviolated books p).0 (clear s)) books.payments
                    payments;
              events =
                  All-map
                    (λ (e : WebhookEvent) clear.
                      (unless (spans window e.created_at)
                          (is_some (payment_of e.payment_id books.payments))).0
                        clear)
                    books.events none_orphaned;
            },
        λ h. from (
          All-map (λ p ordered s. (IsInOrder-IsUnviolated books p).1 (ordered s)) books.payments
              h.payments,
          All-map
              (λ (e : WebhookEvent) known.
                (unless (spans window e.created_at)
                    (is_some (payment_of e.payment_id books.payments))).1
                  known)
              books.events h.events,
        ),
      )

  not_validated : (error : String) (r : IntegrityReport) → invalid error ≡ validated r → ⊥
  not_validated error r h = absurd cc

  answered :
      (problem : Option String) (r : IntegrityReport)
      → validated_unless problem merchant_id window books ≡ validated r
      → report_of merchant_id window books ≡ r
  answered (some error) r h = absurd cc
  answered none r h = elim (Bool-cases (leb window.end window.start)) [
    | inl e ↦ absurd (not_validated _ r (rw e at h))
    | inr e ↦ ap (report_or r) (rw e at h)
  ]

-- Whenever the integrity tool gives a report, the report has passed exactly if every payment that
-- it is about has an error code where it failed, a capture time where it succeeded, a positive
-- amount, the merchant of its order, and refunds of no more than its amount, and every webhook
-- event in the window has its payment.
pub validate_integrity-IsConsistent :
    (merchant_id : Option String) (window : TimeWindow) (books : Books) (r : IntegrityReport)
    → validate_integrity merchant_id window books ≡ validated r
    → (r.passed ≡ true) ↔ IsConsistent merchant_id window books
unfolding validate_integrity
validate_integrity-IsConsistent merchant_id window books r h =
    subst (λ (r : IntegrityReport). (r.passed ≡ true) ↔ IsConsistent merchant_id window books)
      (answered merchant_id window books (merchant_problem merchant_id) r h)
      (report_of-IsConsistent merchant_id window books)
