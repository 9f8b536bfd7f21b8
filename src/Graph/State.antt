-- ===== src/Graph/State.antt =====
-- packages/payops_core/graph/state.py and trace.py, and `initial_state` of build.py. A node's
-- result is merged into the state: `trace` and `completed_task_ids` are appended to, and any other
-- key is overwritten.
use payops_intelligence.Prelude.{
  ℕ, Bool, false, Option, none, List, [], String, str_eq, if◌then◌else◌,
}
use payops_intelligence.Graph.Types.{
  Task, TimeWindow, InvestigationPlan, EvidenceItem, SufficiencyVerdict, VerifiedClaim,
  VerificationResult, CritiqueResult, TraceEvent, RetrievalSummary,
}
use payops_intelligence.Graph.Agents.{Agents}

pub record InvestigationState (A : Agents) : Type 0 where
  pub question : String
  pub input_method : String
  pub query_language : String
  pub response_language : String
  pub retrieval_query : Option String
  pub merchant_id : Option String
  pub time_window : Option TimeWindow
  pub plan : Option InvestigationPlan
  pub evidence : List EvidenceItem
  pub metrics : List A.Metric
  pub hypotheses : List A.Hypothesis
  pub sufficiency : Option SufficiencyVerdict
  pub verified_claims : List VerifiedClaim
  pub verification : Option VerificationResult
  pub critique : Option CritiqueResult
  pub report : Option A.Report
  pub trace : List TraceEvent
  pub iteration : ℕ
  pub max_iterations : ℕ
  pub critic_revisions : ℕ
  pub pending_tasks : List Task
  pub completed_task_ids : List String
  pub error : Option String
  pub timed_out : Bool
  pub retrieval : Option RetrievalSummary
  -- How often the clock has been read.
  pub readings : ℕ

unfoldable pub safe_trace :
    (node action : String) (tool search_query : Option String) (evidence_ids : List String)
    → (decision verification_status : Option String) → TraceEvent
safe_trace node action tool search_query evidence_ids decision verification_status = record {
  node = node;
  action = action;
  tool = tool;
  search_query = search_query;
  evidence_ids = evidence_ids;
  decision = decision;
  verification_status = verification_status;
}

-- The languages and the expanded query come from query_language.py.
unfoldable pub initial_state :
    (A : Agents) (question : String) (max_iterations : ℕ) (merchant_id : Option String)
    → (input_method query_language response_language : String) → (retrieval_query : Option String)
    → InvestigationState A
initial_state A question max_iterations merchant_id input_method language response expanded =
    record {
      question = question;
      input_method = if str_eq input_method "voice" then input_method else "text";
      query_language = language;
      response_language = response;
      retrieval_query = expanded;
      merchant_id = merchant_id;
      time_window = none;
      plan = none;
      evidence = [];
      metrics = [];
      hypotheses = [];
      sufficiency = none;
      verified_claims = [];
      verification = none;
      critique = none;
      report = none;
      trace = [];
      iteration = 0;
      max_iterations = max_iterations;
      critic_revisions = 0;
      pending_tasks = [];
      completed_task_ids = [];
      error = none;
      timed_out = false;
      retrieval = none;
      readings = 0;
    }
