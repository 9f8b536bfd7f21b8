-- ===== src/Graph/Nodes.antt =====
-- packages/payops_core/graph/nodes.py: the other nodes, each with its result merged into the state.
use payops_intelligence.Prelude.{
  ℕ, ◌+◌, Option, none, some, List, [], ◌∷◌, ◌++◌, map, String, str_eq, ◌<>◌, show_nat, join,
  length, flatten, if◌then◌else◌,
}
use payops_intelligence.Graph.Types.{
  Task, label, EvidenceGap, SufficiencyVerdict, VerifiedClaim, VerificationResult, CritiqueResult,
  TraceEvent,
}
use payops_intelligence.Graph.Agents.{Agents, Draft, Runtime}
use payops_intelligence.Graph.State.{InvestigationState, safe_trace}
use payops_intelligence.Graph.Tasks.{or_text}
use payops_intelligence.Graph.Investigate.{ids}
use payops_intelligence.Agents.Sufficiency.{evaluate, task_from_gap}

unfoldable pub labels : List Task → List String
unfolding label
labels tasks = map (λ task. label task.task_type) tasks

-- `",".join(…) or "none"`
unfoldable pub labels_or_none : List Task → String
unfolding labels
labels_or_none tasks = let text = join "," (labels tasks) in if str_eq text "" then "none" else text

-- The trace of an expanded query, where there is one.
unfoldable pub expansion_events : String → Option String → List TraceEvent
unfolding safe_trace
expansion_events question none = []
expansion_events question (some retrieval) =
    if str_eq retrieval ""
    then []
    else safe_trace "planner" "retrieval_query" none (some retrieval) [] (some "glossary_expand")
        none
      ∷ []

-- `[task_from_gap(gap, index) for index, gap in enumerate(gaps)]`
unfoldable pub tasks_from : ℕ → List EvidenceGap → List Task
unfolding task_from_gap
tasks_from index [] = []
tasks_from index (gap ∷ gaps) = task_from_gap gap index ∷ tasks_from (index + 1) gaps

unfoldable pub verdict_gaps : Option SufficiencyVerdict → List EvidenceGap
verdict_gaps none = []
verdict_gaps (some v) = v.missing

unfoldable pub verification_gaps : Option VerificationResult → List EvidenceGap
verification_gaps none = []
verification_gaps (some v) = v.gaps

unfoldable pub leading_ids : (A : Agents) → List A.Hypothesis → List String
leading_ids A [] = []
leading_ids A (h ∷ hypotheses) = A.supporting_evidence_ids h

unfoldable pub leading_category : (A : Agents) → List A.Hypothesis → String
leading_category A [] = "none"
leading_category A (h ∷ hypotheses) = A.category h

-- A draft that follows a critique is a revision.
unfoldable pub revisions_after : Option CritiqueResult → ℕ → ℕ
revisions_after none n = n
revisions_after (some critique) n = n + 1

module _ {A : Agents} where
  unfoldable pub planner_node : InvestigationState A → InvestigationState A
  unfolding safe_trace expansion_events labels_or_none or_text
  planner_node s =
      let plan = A.plan s.question s.merchant_id in
      let traces =
        (safe_trace "planner" "accept_query" none (some s.question) []
            (some (if str_eq s.input_method "voice" then s.input_method else "text")) none
          ∷ safe_trace "planner" "query_language" none (some s.question) []
              (some (if str_eq s.query_language "" then "en" else s.query_language)) none
          ∷ expansion_events s.question s.retrieval_query)
        ++ safe_trace "planner" "plan" none (some s.question) [] (some (labels_or_none plan.tasks))
            none
          ∷ [] in
      record s {
        plan = some plan;
        merchant_id = plan.merchant_id;
        time_window = plan.time_window;
        pending_tasks = plan.tasks;
        trace = s.trace ++ traces;
      }

  unfoldable pub aggregate_node : InvestigationState A → InvestigationState A
  unfolding safe_trace ids
  aggregate_node s = record s {
    trace =
        s.trace
        ++ safe_trace "aggregate" "merge" none none (ids s.evidence)
            (some ("count=" <> show_nat (length s.evidence))) none
          ∷ [];
  }

  unfoldable pub sufficiency_node : InvestigationState A → InvestigationState A
  unfolding safe_trace ids evaluate
  sufficiency_node s =
      let verdict = evaluate s.plan s.evidence in
      record s {
        sufficiency = some verdict;
        trace =
            s.trace
            ++ safe_trace "sufficiency" "evaluate" none none (ids s.evidence)
                (some (if verdict.sufficient then "sufficient" else "insufficient")) none
              ∷ [];
      }

  unfoldable pub queue_gaps : List Task → InvestigationState A → InvestigationState A
  unfolding safe_trace labels labels_or_none tasks_from verdict_gaps verification_gaps
  queue_gaps [] s =
      let extra = tasks_from 0 (verdict_gaps s.sufficiency ++ verification_gaps s.verification) in
      record s {
        pending_tasks = extra;
        trace =
            s.trace
            ++ safe_trace "refine" "queue_gaps" none none [] (some (labels_or_none extra)) none
              ∷ [];
      }
  queue_gaps (task ∷ pending) s = record s {
    trace =
        s.trace
        ++ safe_trace "refine" "keep_pending" none none []
            (some (join "," (labels (task ∷ pending)))) none
          ∷ [];
  }

  unfoldable pub refine_node : InvestigationState A → InvestigationState A
  unfolding queue_gaps
  refine_node s = queue_gaps s.pending_tasks s

  unfoldable pub incident_node : InvestigationState A → InvestigationState A
  unfolding safe_trace leading_ids leading_category
  incident_node s =
      let hypotheses = A.propose s.evidence s.metrics s.question in
      record s {
        hypotheses = hypotheses;
        trace =
            s.trace
            ++ safe_trace "incident_risk" "propose" none none (leading_ids A hypotheses)
                (some (leading_category A hypotheses)) none
              ∷ [];
      }

  unfoldable pub verifier_node : InvestigationState A → InvestigationState A
  unfolding safe_trace
  verifier_node s =
      let result = A.verify s.hypotheses s.evidence in
      record s {
        verified_claims = result.claims;
        verification = some result;
        trace =
            s.trace
            ++ safe_trace "verifier" "verify" none none
                (flatten (map (λ claim. VerifiedClaim.evidence_ids claim) result.claims))
                (some (if result.needs_more_evidence then "investigate" else result.status))
                (some result.status)
              ∷ [];
      }

  unfoldable pub critic_node : InvestigationState A → InvestigationState A
  unfolding safe_trace
  critic_node s =
      let critique = A.review s.question s.plan s.sufficiency s.verified_claims s.report in
      record s {
        critique = some critique;
        trace =
            s.trace
            ++ safe_trace "critic" "review" none none []
                (some (if critique.approved then "approved" else "revise"))
                (some (if critique.approved then "supported" else "unsupported"))
              ∷ [];
      }

  unfoldable pub draft_of : InvestigationState A → Draft A
  draft_of s = record {
    question = s.question;
    merchant_id = s.merchant_id;
    window = s.time_window;
    evidence = s.evidence;
    metrics = s.metrics;
    hypotheses = s.hypotheses;
    sufficiency = s.sufficiency;
    claims = s.verified_claims;
    critique = s.critique;
    trace = s.trace;
    error = s.error;
    timed_out = s.timed_out;
    retrieval = s.retrieval;
    query_language = if str_eq s.query_language "" then "en" else s.query_language;
    response_language = if str_eq s.response_language "" then "en" else s.response_language;
    retrieval_query = s.retrieval_query;
  }

  unfoldable pub writer_node : Runtime A → InvestigationState A → InvestigationState A
  unfolding safe_trace draft_of revisions_after
  writer_node runtime s =
      let report = runtime.write (draft_of s) in
      let enough = A.evidence_sufficient report in
      record s {
        report = some report;
        critic_revisions = revisions_after s.critique s.critic_revisions;
        trace =
            s.trace
            ++ safe_trace "writer" "write" none none (A.cause_evidence_ids report)
                (some (if enough then "complete" else "insufficient"))
                (some (if enough then "supported" else "unsupported"))
              ∷ [];
      }
