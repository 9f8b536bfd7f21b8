-- ===== src/Graph/Types.antt =====
-- The values that the investigation graph passes on: packages/payops_core/models/schemas.py.
-- Scores, latencies and other floating-point fields are left out, and so is the free-form metadata
-- of an evidence item but for its truth value under "error".
use payops_intelligence.Prelude.{ℕ, Bool, Option, List, String}

pub data TaskType : Type 0 where
  retrieve_docs query_metrics inspect_webhooks compare_merchants : TaskType
  merchant_health score_risk score_regression validate_integrity : TaskType

-- The text of the literal.
unfoldable pub label : TaskType → String
label retrieve_docs = "retrieve_docs"
label query_metrics = "query_metrics"
label inspect_webhooks = "inspect_webhooks"
label compare_merchants = "compare_merchants"
label merchant_health = "merchant_health"
label score_risk = "score_risk"
label score_regression = "score_regression"
label validate_integrity = "validate_integrity"

pub data Source : Type 0 where
  doc metric webhook health ml integrity : Source

pub record TimeWindow : Type 0 where
  pub start : ℕ
  pub end : ℕ

pub record Task : Type 0 where
  pub task_id : String
  pub task_type : TaskType
  pub rationale : String
  pub query : Option String
  pub merchant_id : Option String
  pub method_id : Option String
  pub evidence_category : String

pub record InvestigationPlan : Type 0 where
  pub goal : String
  pub merchant_id : Option String
  pub time_window : Option TimeWindow
  pub tasks : List Task

pub record EvidenceItem : Type 0 where
  pub evidence_id : String
  pub source : Source
  pub doc_id : Option String
  pub section : Option String
  pub text_snippet : String
  pub has_error : Bool

pub record EvidenceGap : Type 0 where
  pub description : String
  pub next_task_type : TaskType
  pub suggested_query : Option String

pub record SufficiencyVerdict : Type 0 where
  pub sufficient : Bool
  pub missing : List EvidenceGap
  pub next_action : String
  pub reason : String

pub data Issue : Type 0 where
  unsupported contradictory missing weak : Issue

pub record VerifiedClaim : Type 0 where
  pub claim : String
  pub evidence_ids : List String
  pub supported : Bool
  pub critical : Bool
  pub issues : List Issue
  pub note : Option String

pub record VerificationResult : Type 0 where
  pub claims : List VerifiedClaim
  pub needs_more_evidence : Bool
  pub gaps : List EvidenceGap
  pub status : String

pub record CritiqueResult : Type 0 where
  pub approved : Bool
  pub issues : List String
  pub revision_instructions : Option String

pub record TraceEvent : Type 0 where
  pub node : String
  pub action : String
  pub tool : Option String
  pub search_query : Option String
  pub evidence_ids : List String
  pub decision : Option String
  pub verification_status : Option String

pub record RetrievalRound : Type 0 where
  pub search_index : ℕ
  pub query : String
  pub rewrite_reason : Option String
  pub decision : String
  pub evidence_ids : List String

-- `AgenticRagResult`, as far as the graph reads it.
pub record RagResult : Type 0 where
  pub rounds : List RetrievalRound
  pub iterations : ℕ
  pub max_iterations : ℕ
  pub sufficient : Bool
  pub conflicting : Bool
  pub conflict_note : Option String
  pub citations : List String
  pub grounded_excerpt : String
  pub sources_verified : Bool

pub record RetrievalSummary : Type 0 where
  pub iterations : ℕ
  pub max_iterations : ℕ
  pub sufficient : Bool
  pub conflicting : Bool
  pub conflict_note : Option String
  pub grounded_excerpt : String
  pub citations : List String
  pub rounds : List RetrievalRound
