-- ===== src/Books/Integrity/Payments.antt =====
-- A payment that none of the checks counts, and what is then true of it.
use payops_intelligence.Prelude.{
  ◌≡◌, refl, sym, ap, ◌∙◌, ◌↔◌, Bool, true, false, false≢true, true_of_not, not, ◌&&◌, Option, none,
  some, is_some, String, str_eq, str_eq_refl, eq_of_str_eq, eq_iff, any, pos, ◌≤ℤ◌, ltb_ℤ, arith,
}
use payops_intelligence.Auth.Rows.{some_injective}
use payops_intelligence.Webhooks.Rows.{Payment}
use payops_intelligence.Books.Rows.{Order, Books}
use payops_intelligence.Books.Integrity.{
  order_of, lacks_error, lacks_capture, is_not_positive, differs_from, is_of, refunded,
  is_over_refunded,
}

-- What is asked of a payment.
pub record IsInOrder (books : Books) (p : Payment) : Type 0 where
  pub attributed : p.status ≡ "failed" → is_some p.error_code ≡ true
  pub captured : p.status ≡ "succeeded" → is_some p.captured_at ≡ true
  pub positive : pos 1 ≤ℤ p.amount_cents
  pub owned :
      (o : Order) → order_of p.order_id books.orders ≡ some o → p.merchant_id ≡ o.merchant_id
  pub within :
      any (is_of p.payment_id) books.refunds ≡ true
      → refunded p.payment_id books.refunds ≤ℤ p.amount_cents

-- In a scope, a violation is ruled out.
pub outside_or : (s v : Bool) → ((s && v) ≡ false) ↔ (s ≡ true → v ≡ false)
outside_or true v = (λ h e. h, λ h. h refl)
outside_or false v = (λ h e. absurd (false≢true e), λ h. refl)

pub unless : (s known : Bool) → ((s && not known) ≡ false) ↔ (s ≡ true → known ≡ true)
unless true known = (λ h e. true_of_not known h, λ h. ap not (h refl))
unless false known = (λ h e. absurd (false≢true e), λ h. refl)

-- The five violations of a payment are those of the order that it is in.
module _ (books : Books) (p : Payment) where
  abbrev pub IsUnviolated : Type 0
  IsUnviolated =
      (lacks_error p ≡ false)
      × (lacks_capture p ≡ false)
      × (is_not_positive p ≡ false)
      × (differs_from p (order_of p.order_id books.orders) ≡ false)
      × (is_over_refunded books.refunds p ≡ false)

  with_status :
      (status : String) (known : Bool)
      → ((str_eq p.status status && not known) ≡ false) ↔ (p.status ≡ status → known ≡ true)
  with_status status known = (
    λ h e. (unless (str_eq p.status status) known).0 h ((eq_iff p.status status).1 e),
    λ h. (unless (str_eq p.status status) known).1 (λ e. h (eq_of_str_eq p.status status e)),
  )

  same_owner :
      (found : Option Order)
      → (differs_from p found ≡ false)
        ↔ ((o : Order) → found ≡ some o → p.merchant_id ≡ o.merchant_id)
  same_owner none = (λ h o e. absurd cc, λ h. refl)
  same_owner (some o) = (
    λ h o' e.
        eq_of_str_eq _ _ (true_of_not (str_eq p.merchant_id o.merchant_id) h)
        ∙ ap (λ (o : Order). o.merchant_id) (some_injective o o' e),
    λ h. ap not (ap (str_eq p.merchant_id) (sym (h o refl)) ∙ str_eq_refl p.merchant_id),
  )

  pub IsInOrder-IsUnviolated : IsUnviolated ↔ IsInOrder books p
  IsInOrder-IsUnviolated = (
    λ (error, capture, positive, differs, over). record {
      attributed = (with_status "failed" (is_some p.error_code)).0 error;
      captured = (with_status "succeeded" (is_some p.captured_at)).0 capture;
      positive = ground (arith, positive);
      owned = (same_owner (order_of p.order_id books.orders)).0 differs;
      within = λ h. ground (arith, over, h);
    },
    λ h. (
      (with_status "failed" (is_some p.error_code)).1 h.attributed,
      (with_status "succeeded" (is_some p.captured_at)).1 h.captured,
      ground (arith, h.positive),
      (same_owner (order_of p.order_id books.orders)).1 h.owned,
      (outside_or (any (is_of p.payment_id) books.refunds)
            (ltb_ℤ p.amount_cents (refunded p.payment_id books.refunds))).1
          (λ some_refund. ground (arith, h.within some_refund)),
    ),
  )
