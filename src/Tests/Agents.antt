-- ===== src/Tests/Agents.antt =====
-- The verifier on concrete claims.
use payops_intelligence.Prelude.{
  Bool, none, some, ℕ, ◌≤◌, ◌≡◌, refl, true, false, List, [], ◌∷◌, length, String, ltb, leb, join,
}
use payops_intelligence.Graph.Types.{
  EvidenceItem, metric, VerifiedClaim, VerificationResult, CritiqueResult,
}
use payops_intelligence.Agents.Verifier.{
  Reading, Hypothesis, codes_of, blob, shared_codes, is_contradicted, verify,
}
use payops_intelligence.Agents.Verifier.Claims.{AreGrounded, verify-IsGrounded}
use payops_intelligence.Agents.Critic.{Wording, Reviewed, review}
use payops_intelligence.Agents.Critic.Approval.{IsSoundReport, review-IsSoundReport}
use payops_intelligence.Graph.Agents.{Runtime}
use payops_intelligence.Graph.State.{InvestigationState, initial_state}
use payops_intelligence.Agents.Team.{Readers, team}
use payops_intelligence.Tests.Graph.{item, failing}

-- Confidence in hundredths; a text is its only stem.
abbrev reading : Reading
reading = record {
  Confidence = ℕ;
  is_low = λ n. ltb n 40;
  is_high = λ n. leb 60 n;
  stems = λ text. text ∷ [];
  compact = λ text. text;
  lower = λ text. text;
}

abbrev because : String → ℕ → Hypothesis reading
because cause confidence = record {
  cause = cause;
  supporting_evidence_ids = "m1" ∷ [];
  confidence = confidence;
  category = "processor";
}

abbrev evidence : List EvidenceItem
evidence = item "m1" metric "GATEWAY_TIMEOUT: 41" ∷ []

abbrev verified : VerificationResult
verified = verify reading (because "GATEWAY_TIMEOUT" 82 ∷ []) evidence

abbrev refuted : VerificationResult
refuted = verify reading (because "GATEWAY_TIMEOUT" 82 ∷ because "DO_NOT_HONOR" 82 ∷ []) evidence

supported : verified.status ≡ "supported"
unfolding verify codes_of blob shared_codes is_contradicted join
supported = refl

contradicted : refuted.status ≡ "contradictory"
unfolding verify codes_of blob shared_codes is_contradicted join
contradicted = refl

-- Without evidence the first claim asks for some.
lacking : (verify reading (because "GATEWAY_TIMEOUT" 82 ∷ []) []).status ≡ "missing"
unfolding verify codes_of blob shared_codes is_contradicted join
lacking = refl

verify-IsGrounded_example :
    let hypotheses = because "GATEWAY_TIMEOUT" 82 ∷ because "DO_NOT_HONOR" 82 ∷ [] in
    AreGrounded reading evidence hypotheses refuted.claims × (length refuted.gaps ≤ 1)
verify-IsGrounded_example =
    verify-IsGrounded reading (because "GATEWAY_TIMEOUT" 82 ∷ because "DO_NOT_HONOR" 82 ∷ [])
      evidence

-- Words are the texts themselves.
abbrev wording : Wording
wording = record { strip = λ s. s; lower = λ s. s; words = λ s. s ∷ [] }

abbrev draft : Bool → Reviewed
draft sufficient = record {
  executive_summary = "Timeouts of the gateway at one method";
  findings = "41 timeouts" ∷ [];
  evidence_ids = "m1" ∷ [];
  cause = "GATEWAY_TIMEOUT";
  supporting_evidence_ids = "m1" ∷ [];
  is_confident = true;
  evidence_sufficient = sufficient;
}

abbrev reviewed : List VerifiedClaim → Bool
reviewed claims =
    CritiqueResult.approved (review wording "why" none none claims (some (draft true)))

approved : reviewed verified.claims ≡ true
unfolding review verify codes_of blob shared_codes is_contradicted join
approved = refl

-- A critical claim without evidence stands against a report that says it has enough.
disapproved : reviewed (verify reading (because "GATEWAY_TIMEOUT" 82 ∷ []) []).claims ≡ false
unfolding review verify codes_of blob shared_codes is_contradicted join
disapproved = refl

review-IsSoundReport_example : IsSoundReport verified.claims (draft true)
review-IsSoundReport_example =
    review-IsSoundReport wording "why" none none verified.claims (draft true) approved

-- The graph with the verifier and the critic: two rounds without documents, and one revision.
abbrev readers : Readers failing
readers = record {
  reading = reading;
  wording = wording;
  hypothesis_of = λ n. because "GATEWAY_TIMEOUT" n;
  reviewed_of = λ n. draft false;
}

abbrev crew : Runtime (team failing readers)
crew = record { write = λ d. 1; expired = λ n. false }

abbrev opened : InvestigationState (team failing readers)
opened = initial_state (team failing readers) "why" 2 none "text" "en" "en" none
