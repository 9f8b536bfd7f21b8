-- ===== src/Books/Rows.antt =====
-- The columns of orders, refunds and disputes (packages/payops_core/data/models.py) that the tools
-- read, and the schemas of integrity reports and metrics. Amounts are integers of any size. A ratio
-- keeps its two numbers, which the source divides and rounds to six places.
use payops_intelligence.Prelude.{ℕ, Bool, Option, List, String, ℤ}
use payops_intelligence.Graph.Types.{TimeWindow}
use payops_intelligence.Webhooks.Rows.{Payment, WebhookEvent}

pub record Order : Type 0 where
  pub order_id : String
  pub merchant_id : String

pub record Refund : Type 0 where
  pub payment_id : String
  pub amount_cents : ℤ
  pub status : String
  pub created_at : ℕ

pub record Dispute : Type 0 where
  pub payment_id : String
  pub created_at : ℕ

pub record Books : Type 0 where
  pub orders : List Order
  pub payments : List Payment
  pub refunds : List Refund
  pub disputes : List Dispute
  pub events : List WebhookEvent

pub record IntegrityCheck : Type 0 where
  pub check_id : String
  pub name : String
  pub passed : Bool
  pub observed : ℕ
  pub invariant : String
  pub explanation : String

pub record IntegrityReport : Type 0 where
  pub merchant_id : Option String
  pub window : TimeWindow
  pub passed : Bool
  pub sample_size : ℕ
  pub checks : List IntegrityCheck
  pub schema_invariants : List String
  pub notes : String

pub record Ratio : Type 0 where
  pub numerator : ℕ
  pub denominator : ℕ

pub data CompareMetric : Type 0 where
  success_rate failure_rate : CompareMetric

pub data AnalyticsOperation : Type 0 where
  get_success_rate get_failure_rate breakdown_by_method breakdown_by_error_code : AnalyticsOperation
  compare_time_windows compare_merchants get_refund_rate get_dispute_rate : AnalyticsOperation
  get_webhook_failure_rate : AnalyticsOperation

pub record AnalyticsRequest : Type 0 where
  pub operation : AnalyticsOperation
  pub window : TimeWindow
  pub merchant_id : Option String
  pub method_id : Option String
  pub compare_merchant_id : Option String
  pub previous_window : Option TimeWindow
  pub compare_metric : CompareMetric

-- One method's entry of a breakdown, and one error code's.
pub record MethodCounts : Type 0 where
  pub method_id : String
  pub succeeded : ℕ
  pub failed : ℕ
  pub total : ℕ

pub record ErrorShare : Type 0 where
  pub code : String
  pub count : ℕ
  pub share : Ratio

-- The `value` of a metric. The rates of a method are the ratios of its counts, and the difference
-- of a comparison is that of its two ratios.
pub data Value : Type 0 where
  rate : Ratio → Value
  by_method : List MethodCounts → Value
  by_error : List ErrorShare → Value
  windows_compared : (current previous : Ratio) → CompareMetric → Value
  merchants_compared : (merchant other : String) → (left right : Ratio) → CompareMetric → Value

pub record MetricResult : Type 0 where
  pub metric : String
  pub value : Value
  pub window : TimeWindow
  pub merchant_filter : Option String
  pub method_filter : Option String
  pub previous_filter : Option TimeWindow
  pub compare_filter : Option String
  pub tool : String
  pub source : String
  pub operation : AnalyticsOperation
  pub merchant_id : Option String
  pub unit : String
  pub notes : Option String
  pub sample_size : Option ℕ
