-- ===== src/Agents/Critic.antt =====
-- packages/payops_core/agents/critic.py: when a draft report is approved.
pub mod Approval
use payops_intelligence.Prelude.{
  ℕ, Bool, true, false, not, ◌&&◌, ◌||◌, Option, none, some, is_some, List, [], ◌∷◌, ◌++◌, String,
  str_eq, ◌<>◌, codes, contains, occurs, startswith, join, filter, length, any, ltb, if◌then◌else◌,
}
use payops_intelligence.Graph.Types.{
  InvestigationPlan, SufficiencyVerdict, contradictory, VerifiedClaim, CritiqueResult,
}
use payops_intelligence.Agents.Verifier.{has_issue, is_gap, is_none_of}

-- `str.strip`, `str.lower` and `str.split` of Python.
pub record Wording : Type 0 where
  pub strip : String → String
  pub lower : String → String
  pub words : String → List String

-- The parts of an `IncidentReport` that the critic reads, with the test `confidence > 0.4`.
pub record Reviewed : Type 0 where
  pub executive_summary : String
  pub findings : List String
  pub evidence_ids : List String
  pub cause : String
  pub supporting_evidence_ids : List String
  pub is_confident : Bool
  pub evidence_sufficient : Bool

abbrev pub fallback_cause : String
fallback_cause = "Insufficient structured evidence to name a root cause"

abbrev pub issue_if : Bool → String → List String
issue_if test issue = if test then issue ∷ [] else []

-- `_coverage`
unfoldable pub coverage : Reviewed → List String
coverage r =
    issue_if (any (λ id. not (contains r.evidence_ids id)) r.supporting_evidence_ids)
      "evidence_coverage: likely cause cites IDs absent from the report"

abbrev pub is_rejected_claim : String → VerifiedClaim → Bool
is_rejected_claim cause c = not c.supported && str_eq c.claim cause

-- `_unsupported`
unfoldable pub unsupported_claims : List VerifiedClaim → Reviewed → List String
unsupported_claims claims r =
    if any (is_rejected_claim r.cause) claims
      && (r.evidence_sufficient && not (str_eq r.cause fallback_cause))
    then "unsupported_claims: writer treated a rejected claim as established" ∷ []
    else issue_if (any is_gap claims && r.evidence_sufficient)
        "unsupported_claims: evidence_sufficient ignores verifier"

abbrev pub is_contradiction : VerifiedClaim → Bool
is_contradiction c = c.critical && has_issue contradictory c

-- `_consistency`
unfoldable pub consistency : List VerifiedClaim → Reviewed → List String
consistency claims r =
    issue_if (any is_contradiction claims && r.is_confident)
      "factual_consistency: high confidence despite contradictory evidence"

abbrev pub is_serious : String → Bool
is_serious issue =
    startswith issue "unsupported_claims"
    || (startswith issue "factual_consistency" || startswith issue "evidence_coverage")

abbrev pub is_insufficient : Option SufficiencyVerdict → Bool
is_insufficient none = false
is_insufficient (some v) = not v.sufficient

module _ (W : Wording) where
  -- `_clarity`
  unfoldable pub clarity : Reviewed → List String
  clarity r =
      let summary = W.strip r.executive_summary in
      let lowered = W.lower summary in
      issue_if (ltb (length (codes summary)) 20) "clarity: executive summary is too short"
      ++ issue_if (occurs "todo" lowered || occurs "i think" lowered)
          "clarity: draft contains speculative language"

  -- The words of the question with more than three characters.
  abbrev pub question_tokens : String → List String
  question_tokens question =
      filter (λ word. ltb 3 (length (codes word))) (W.words (W.lower question))

  -- `_completeness`
  unfoldable pub completeness : String → Reviewed → List String
  completeness question r =
      let blob = W.lower (r.executive_summary <> (" " <> join " " r.findings)) in
      let tokens = question_tokens question in
      issue_if (is_none_of r.findings) "completeness: report has no findings"
      ++ (issue_if (is_none_of r.evidence_ids) "completeness: report cites no evidence"
          ++ issue_if (not (is_none_of tokens) && not (any (contains (W.words blob)) tokens))
              "completeness: draft does not address the question")

  -- The issues found before the report is read.
  unfoldable pub opening : String → Option InvestigationPlan → List String
  opening question plan =
      issue_if (str_eq (W.strip question) "") "clarity: empty question"
      ++ issue_if (not (is_some plan)) "completeness: missing investigation plan"

  unfoldable pub report_issues :
      String
      → Option InvestigationPlan
      → Option SufficiencyVerdict
      → List VerifiedClaim
      → Reviewed
      → List String
  unfolding opening clarity completeness coverage unsupported_claims consistency
  report_issues question plan sufficiency claims r =
      opening question plan
      ++ (clarity r
          ++ (completeness question r
              ++ (coverage r
                  ++ (unsupported_claims claims r
                      ++ (consistency claims r
                          ++ issue_if (is_insufficient sufficiency)
                              "completeness: evidence marked insufficient")))))

  unfoldable pub is_approved : List String → Reviewed → Bool
  is_approved issues r = not (any is_serious issues) && not (str_eq r.executive_summary "")

  unfoldable pub review :
      String
      → Option InvestigationPlan
      → Option SufficiencyVerdict
      → List VerifiedClaim
      → Option Reviewed
      → CritiqueResult
  unfolding opening report_issues is_approved
  review question plan sufficiency claims none = record {
    approved = false;
    issues = opening question plan ++ "completeness: missing draft report" ∷ [];
    revision_instructions = some "Produce a draft from verified evidence only.";
  }
  review question plan sufficiency claims (some r) =
      let issues = report_issues question plan sufficiency claims r in
      let approved = is_approved issues r in
      record {
        approved = approved;
        issues = issues;
        revision_instructions =
            if approved
            then none
            else some "Revise using verifier findings only. Do not promote unsupported claims.";
      }
