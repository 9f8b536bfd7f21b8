-- ===== src/Webhooks/Rows.antt =====
-- The columns of payments and webhook_events (packages/payops_core/data/models.py) that the tools
-- read, and the schemas of their requests and results. Times are microseconds since 1970.
-- The tables keep `delay_ms` from being negative.
use payops_intelligence.Prelude.{ℕ, Option, List, String, ℤ}
use payops_intelligence.Graph.Types.{TimeWindow}

pub record Payment : Type 0 where
  pub payment_id : String
  pub order_id : String
  pub merchant_id : String
  pub method_id : String
  pub amount_cents : ℤ
  pub status : String
  pub error_code : Option String
  pub created_at : ℕ
  pub captured_at : Option ℕ

-- With the two entries of `extra` that are read, where the attempt is an integer.
pub record WebhookEvent : Type 0 where
  pub event_id : String
  pub payment_id : String
  pub event_type : String
  pub delivery_status : String
  pub delay_ms : ℕ
  pub created_at : ℕ
  pub delivered_at : Option ℕ
  pub attempt : Option ℤ
  pub idempotency_key : Option String

pub record Records : Type 0 where
  pub payments : List Payment
  pub events : List WebhookEvent

pub record AnalyzedEvent : Type 0 where
  pub event_id : String
  pub payment_id : String
  pub event_type : String
  pub delivery_status : String
  pub delay_ms : ℕ
  pub created_at : ℕ
  pub delivered_at : Option ℕ
  pub attempt : ℤ
  pub idempotency_key : Option String
  pub order_id : Option String
  pub merchant_id : Option String
  pub payment_status : Option String

pub record AnalyzedPayment : Type 0 where
  pub payment_id : String
  pub order_id : String
  pub merchant_id : String
  pub status : String
  pub created_at : ℕ

pub data Kind : Type 0 where
  event missing delayed failed retry duplicate mismatch : Kind

-- The `extra` of an event's finding.
pub data Reason : Type 0 where
  no_reason payment_not_found : Reason
  event_type_mismatch : (payment_status expected_event_type : String) → Reason

-- The `details` of a finding, by the function that makes it.
pub data Details : Type 0 where
  of_event :
      (attempt : ℤ)
      → (idempotency_key : Option String) → (payment_status : Option String) → Reason
      → Details
  of_missing : (payment_status : String) → (event_count : ℕ) → Details
  of_retry : (attempts : List ℤ) → (statuses : List String) → Details
  of_duplicate : (idempotency_key : Option String) → (attempt : ℤ) → (count : ℕ) → Details

pub record WebhookFinding : Type 0 where
  pub kind : Kind
  pub payment_id : String
  pub order_id : Option String
  pub merchant_id : Option String
  pub event_ids : List String
  pub event_type : Option String
  pub delivery_status : Option String
  pub delay_ms : Option ℕ
  pub details : Details

pub data Operation : Type 0 where
  get_events_for_payment find_missing_events find_delayed_events : Operation
  get_delivery_failures find_retries find_duplicate_events : Operation
  correlate_events_and_payments : Operation

pub record WebhookRequest : Type 0 where
  pub operation : Operation
  pub window : Option TimeWindow
  pub merchant_id : Option String
  pub payment_id : Option String
  pub delay_threshold_ms : ℤ

-- `filters`, without the keys whose value is None.
pub record Filters : Type 0 where
  pub merchant_id : Option String
  pub payment_id : Option String
  pub delay_threshold_ms : ℤ

pub record WebhookToolResult : Type 0 where
  pub operation : Operation
  pub findings : List WebhookFinding
  pub count : ℕ
  pub window : Option TimeWindow
  pub filters : Filters
