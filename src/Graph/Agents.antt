-- ===== src/Graph/Agents.antt =====
-- The agents that the nodes call. The graph uses the planner, the tools, the hypothesis ranking,
-- the verifier, the critic and the writer through their results only, so its theorems hold for any
-- such functions; the sufficiency agent is modelled whole in Agents/Sufficiency.
use payops_intelligence.Prelude.{ℕ, Bool, Option, List, String}
use payops_intelligence.Graph.Types.{
  InvestigationPlan, Task, TimeWindow, EvidenceItem, SufficiencyVerdict, VerifiedClaim,
  VerificationResult, CritiqueResult, TraceEvent, RagResult, RetrievalSummary,
}

-- What a tool returns, or the name and the text of the exception that it raised.
pub data Attempt (B : Type 0) : Type 0 where
  gave : B → Attempt B
  raised : String → String → Attempt B

pub record Research : Type 0 where
  pub items : List EvidenceItem
  pub queries : List String
  pub rag : Option RagResult

pub record Inspection : Type 0 where
  pub items : List EvidenceItem
  pub operations : List String

pub record Analysis (M : Type 0) : Type 0 where
  pub metrics : List M
  pub operations : List String

pub record Agents : Type 1 where
  pub Metric : Type 0
  pub Hypothesis : Type 0
  pub Report : Type 0
  -- `PlannerAgent().plan(question, merchant_id=…)`
  pub plan : String → Option String → InvestigationPlan
  -- The tools, by what `_run_task` calls: the query or question, the task, merchant and window.
  pub research : String → Task → Attempt Research
  pub score_merchant : String → TimeWindow → Attempt EvidenceItem
  pub run_classification : String → TimeWindow → Attempt (List EvidenceItem)
  pub run_regression : String → TimeWindow → Attempt (List EvidenceItem)
  pub check_integrity : String → TimeWindow → Option String → Task → Attempt (List EvidenceItem)
  pub analyze :
      String → TimeWindow → Option String → Option String → Task → Attempt (Analysis Metric)
  -- `metric.to_evidence()`
  pub metric_evidence : Metric → EvidenceItem
  pub inspect : String → TimeWindow → Option String → Task → Attempt Inspection
  pub default_window : TimeWindow
  -- `IncidentRiskAgent().propose(evidence, metrics, question)`
  pub propose : List EvidenceItem → List Metric → String → List Hypothesis
  pub supporting_evidence_ids : Hypothesis → List String
  pub category : Hypothesis → String
  -- `VerifierAgent().verify(hypotheses, evidence)`
  pub verify : List Hypothesis → List EvidenceItem → VerificationResult
  -- `CriticAgent().review(question, plan, sufficiency, claims, report)`
  pub review :
      String
      → Option InvestigationPlan
      → Option SufficiencyVerdict
      → List VerifiedClaim
      → Option Report
      → CritiqueResult
  pub cause_evidence_ids : Report → List String
  pub evidence_sufficient : Report → Bool

-- What the writer is handed.
pub record Draft (A : Agents) : Type 0 where
  pub question : String
  pub merchant_id : Option String
  pub window : Option TimeWindow
  pub evidence : List EvidenceItem
  pub metrics : List A.Metric
  pub hypotheses : List A.Hypothesis
  pub sufficiency : Option SufficiencyVerdict
  pub claims : List VerifiedClaim
  pub critique : Option CritiqueResult
  pub trace : List TraceEvent
  pub error : Option String
  pub timed_out : Bool
  pub retrieval : Option RetrievalSummary
  pub query_language : String
  pub response_language : String
  pub retrieval_query : Option String

-- The writer, and the clock of `GraphRuntime`: the readings of `expired()`, in order.
pub record Runtime (A : Agents) : Type 0 where
  pub write : Draft A → A.Report
  pub expired : ℕ → Bool
