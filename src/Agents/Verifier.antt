-- ===== src/Agents/Verifier.antt =====
-- packages/payops_core/agents/verifier.py: which claims the evidence supports.
pub mod Claims
pub mod Overlap
use payops_intelligence.Prelude.{
  ℕ, Bool, true, false, not, ◌&&◌, ◌||◌, Option, none, some, List, [], ◌∷◌, ◌++◌, map, String,
  str_eq, ◌<>◌, contains, occurs, join, filter, length, any, all, ltb, if◌then◌else◌,
}
use payops_intelligence.Graph.Types.{
  retrieve_docs, query_metrics, inspect_webhooks, EvidenceItem, EvidenceGap, Issue, unsupported,
  contradictory, missing, weak, VerifiedClaim, VerificationResult,
}

-- What the verifier takes from Python's texts and floating point.
pub record Reading : Type 1 where
  pub Confidence : Type 0
  -- `confidence < 0.4` and `confidence >= 0.6`
  pub is_low : Confidence → Bool
  pub is_high : Confidence → Bool
  -- `_stems(_tokens(text))`, each stem once.
  pub stems : String → List String
  -- `text.upper()` with `_` for `-` and for a space.
  pub compact : String → String
  pub lower : String → String

pub record Hypothesis (R : Reading) : Type 0 where
  pub cause : String
  pub supporting_evidence_ids : List String
  pub confidence : R.Confidence
  pub category : String

abbrev pub generic : List String
generic =
    "after" ∷ "also" ∷ "cause" ∷ "caused" ∷ "code" ∷ "codes" ∷ "during" ∷ "event" ∷ "events"
    ∷ "fail" ∷ "failed" ∷ "failure" ∷ "failures" ∷ "incident" ∷ "issue" ∷ "merchant" ∷ "method"
    ∷ "outage" ∷ "payment" ∷ "payments" ∷ "platform" ∷ "problem" ∷ "processor" ∷ "rate" ∷ "success"
    ∷ "successful" ∷ []

abbrev pub error_codes : List String
error_codes =
    "GATEWAY_TIMEOUT" ∷ "INSUFFICIENT_FUNDS" ∷ "DO_NOT_HONOR" ∷ "AUTHENTICATION_FAILED"
    ∷ "WEBHOOK_TIMEOUT" ∷ []

-- `_OPPOSITES.get(code, set())`
abbrev pub opposites : String → List String
opposites code =
    if str_eq code "GATEWAY_TIMEOUT"
    then "INSUFFICIENT_FUNDS" ∷ "DO_NOT_HONOR" ∷ "AUTHENTICATION_FAILED" ∷ []
    else if contains
        ("INSUFFICIENT_FUNDS" ∷ "DO_NOT_HONOR" ∷ "AUTHENTICATION_FAILED" ∷ "WEBHOOK_TIMEOUT" ∷ [])
        code
    then "GATEWAY_TIMEOUT" ∷ []
    else []

abbrev pub is_none_of {ℓ} : {A : Type ℓ} → List A → Bool
is_none_of [] = true
is_none_of (x ∷ xs) = false

-- `_contradictory`
unfoldable pub are_contradictory : (claim_codes evidence_codes : List String) → Bool
are_contradictory claim_codes evidence_codes =
    any
      (λ code. any (contains (opposites code)) evidence_codes && not (contains evidence_codes code))
      claim_codes

abbrev pub same_issue : Issue → Issue → Bool
same_issue unsupported unsupported = true
same_issue contradictory contradictory = true
same_issue missing missing = true
same_issue weak weak = true
same_issue _ _ = false

abbrev pub has_issue : Issue → VerifiedClaim → Bool
has_issue issue claim = any (same_issue issue) claim.issues

abbrev pub is_known : List EvidenceItem → String → Bool
is_known items id = any (λ (i : EvidenceItem). str_eq i.evidence_id id) items

-- `known[id].text_snippet`: the last item of the identifier.
abbrev pub text_known : String → String → List EvidenceItem → String
text_known id text [] = text
text_known id text (i ∷ items) =
    text_known id (if str_eq i.evidence_id id then i.text_snippet else text) items

abbrev pub when : Bool → Issue → List Issue
when test issue = if test then issue ∷ [] else []

abbrev pub issue_text : Issue → String
issue_text unsupported = "unsupported"
issue_text contradictory = "contradictory"
issue_text missing = "missing"
issue_text weak = "weak"

-- `", ".join(issues) if issues else None`
unfoldable pub note_of : List Issue → Option String
note_of [] = none
note_of (issue ∷ issues) = some (join ", " (map issue_text (issue ∷ issues)))

-- `_overall_status`
unfoldable pub overall_status : List VerifiedClaim → String
overall_status claims =
    if any (has_issue contradictory) claims
    then "contradictory"
    else if any (λ (c : VerifiedClaim). c.critical && has_issue missing c) claims
    then "missing"
    else if any (λ (c : VerifiedClaim). c.critical && not c.supported) claims
    then "unsupported"
    else if any (has_issue weak) claims
    then "weak"
    else if not (is_none_of claims) && all (λ (c : VerifiedClaim). c.supported) claims
    then "supported"
    else "unsupported"

abbrev pub is_gap : VerifiedClaim → Bool
is_gap c = c.critical && not c.supported

module _ (R : Reading) where
  unfoldable pub codes_of : String → List String
  codes_of text = filter (λ code. occurs code (R.compact text)) error_codes

  abbrev pub cited : Hypothesis R → List EvidenceItem → List String
  cited h items = filter (is_known items) h.supporting_evidence_ids

  -- The texts of the cited items, or else of all.
  unfoldable pub blob : Hypothesis R → List EvidenceItem → String
  blob h items = join " " (
      if is_none_of (cited h items)
      then map (λ (i : EvidenceItem). i.text_snippet) items
      else map (λ id. text_known id "" items) (cited h items))

  unfoldable pub distinctive : Hypothesis R → List EvidenceItem → List String
  unfolding blob
  distinctive h items =
      filter (λ stem. contains (R.stems (blob h items)) stem && not (contains generic stem))
        (R.stems h.cause)

  unfoldable pub shared_codes : Hypothesis R → List EvidenceItem → List String
  unfolding blob codes_of
  shared_codes h items = filter (contains (codes_of (blob h items))) (codes_of h.cause)

  unfoldable pub is_missing : Hypothesis R → List EvidenceItem → Bool
  is_missing h items =
      is_none_of items || (not (is_none_of h.supporting_evidence_ids) && is_none_of (cited h items))

  unfoldable pub is_contradicted : Hypothesis R → List EvidenceItem → Bool
  unfolding are_contradictory codes_of blob
  is_contradicted h items = are_contradictory (codes_of h.cause) (codes_of (blob h items))

  unfoldable pub is_supported : Hypothesis R → List EvidenceItem → Bool
  unfolding distinctive shared_codes is_contradicted is_missing
  is_supported h items =
      (not (is_none_of (distinctive h items)) || not (is_none_of (shared_codes h items)))
      && not (is_contradicted h items)
      && not (is_missing h items)

  unfoldable pub is_weak : Hypothesis R → List EvidenceItem → Bool
  unfolding is_supported distinctive shared_codes
  is_weak h items =
      is_supported h items
      && (R.is_low h.confidence
          || (ltb (length (distinctive h items)) 2 && is_none_of (shared_codes h items)))

  unfoldable pub issues_of : Hypothesis R → List EvidenceItem → List Issue
  unfolding is_missing is_contradicted is_supported is_weak
  issues_of h items =
      when (is_missing h items) missing
      ++ (when (is_contradicted h items) contradictory
          ++ (when (not (is_supported h items)) unsupported ++ when (is_weak h items) weak))

  -- `_check`
  unfoldable pub check : Bool → List EvidenceItem → Hypothesis R → VerifiedClaim
  unfolding issues_of note_of is_supported
  check leading items h = record {
    claim = h.cause;
    evidence_ids = cited h items;
    supported = is_supported h items;
    critical = leading && (R.is_high h.confidence && not (str_eq h.category "unknown"));
    issues = issues_of h items;
    note = note_of (issues_of h items);
  }

  -- `_gap_for`
  unfoldable pub gap_for : VerifiedClaim → EvidenceGap
  gap_for claim =
      let lowered = R.lower claim.claim in
      record {
        description = "Critical claim needs backing: " <> claim.claim;
        next_task_type =
            if occurs "webhook" lowered || occurs "ack" lowered
            then inspect_webhooks
            else if occurs "rate" lowered || occurs "success" lowered || occurs "failure" lowered
            then query_metrics
            else retrieve_docs;
        suggested_query = some claim.claim;
      }

  -- The claims of the hypotheses, of which the first leads.
  unfoldable pub claims_of : List (Hypothesis R) → List EvidenceItem → List VerifiedClaim
  unfolding check
  claims_of [] items = []
  claims_of (h ∷ hypotheses) items = check true items h ∷ map (check false items) hypotheses

  unfoldable pub verify : List (Hypothesis R) → List EvidenceItem → VerificationResult
  unfolding claims_of gap_for overall_status
  verify hypotheses items =
      let claims = claims_of hypotheses items in
      let gaps = map gap_for (filter is_gap claims) in
      record {
        claims = claims;
        needs_more_evidence = not (is_none_of gaps);
        gaps = gaps;
        status = overall_status claims;
      }
