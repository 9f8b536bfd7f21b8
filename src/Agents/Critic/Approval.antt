-- ===== src/Agents/Critic/Approval.antt =====
-- What an approved report is free of.
use payops_intelligence.Prelude.{
  ◌≡◌, refl, sym, inl, inr, Bool, true, false, false≢true, Bool-cases, not, ◌&&◌, Option, some,
  List, [], ◌∷◌, ◌++◌, String, str_eq, any, all, contains, arith,
}
use payops_intelligence.Graph.Types.{InvestigationPlan, SufficiencyVerdict, VerifiedClaim}
use payops_intelligence.Agents.Verifier.{is_gap}
use payops_intelligence.Agents.Critic.{
  Wording, Reviewed, issue_if, coverage, unsupported_claims, is_contradiction, consistency,
  is_serious, opening, clarity, completeness, report_issues, is_approved, review, is_rejected_claim,
  fallback_cause,
}

any-append {ℓ} :
    {A : Type ℓ} (p : A → Bool) (xs ys : List A)
    → any p (xs ++ ys) ≡ false
    → (any p xs ≡ false) × (any p ys ≡ false)
any-append p [] ys h = (refl, h)
any-append p (x ∷ xs) ys h = elim (Bool-cases (p x)) [
  | inl e ↦ absurd (false≢true (sym (rw e at h)))
  | inr e ↦ let (left, right) = any-append p xs ys (rw e at h) in (rw e left, right)
]

-- A test whose issue is serious has not come out true where no issue is.
unraised :
    (test : Bool) (issue : String)
    → is_serious issue ≡ true
    → any is_serious (issue_if test issue) ≡ false
    → test ≡ false
unraised true issue serious h = absurd (ground (arith, serious, h))
unraised false issue serious h = refl

covered :
    (have : List String) (ids : List String)
    → any (λ id. not (contains have id)) ids ≡ false
    → all (contains have) ids ≡ true
covered have [] h = refl
covered have (id ∷ ids) h = elim (Bool-cases (contains have id)) [
  | inl e ↦ rw e (covered have ids (rw e at h))
  | inr e ↦ absurd (false≢true (sym (rw e at h)))
]

-- No claim that the verifier misses evidence for stands in a report that says it has enough.
heeded :
    (claims : List VerifiedClaim) (r : Reviewed)
    → any is_serious (unsupported_claims claims r) ≡ false
    → (any is_gap claims && r.evidence_sufficient) ≡ false
unfolding unsupported_claims
heeded claims r h =
    elim (Bool-cases (
      any (is_rejected_claim r.cause) claims
      && (r.evidence_sufficient && not (str_eq r.cause fallback_cause)))) [
        | inl e ↦ absurd (false≢true (sym (rw e at h)))
        | inr e ↦ unraised (any is_gap claims && r.evidence_sufficient) _ refl (rw e at h)
      ]

neither : (a b : Bool) → (not a && not b) ≡ true → (a ≡ false) × (b ≡ false)
neither true b h = absurd (false≢true h)
neither false true h = absurd (false≢true h)
neither false false h = (refl, refl)

-- What approval asks of a report.
pub record IsSoundReport (claims : List VerifiedClaim) (r : Reviewed) : Type 0 where
  pub summarised : str_eq r.executive_summary "" ≡ false
  pub cited : all (contains r.evidence_ids) r.supporting_evidence_ids ≡ true
  pub enough : (any is_gap claims && r.evidence_sufficient) ≡ false
  pub agreed : (any is_contradiction claims && r.is_confident) ≡ false

module _ (W : Wording) where
  -- An approved report has a summary, cites all the evidence of its likely cause, does not claim
  -- enough evidence where a critical claim is not supported, and is not confident where a critical
  -- claim is contradicted.
  pub review-IsSoundReport :
      (question : String) (plan : Option InvestigationPlan)
      (sufficiency : Option SufficiencyVerdict) (claims : List VerifiedClaim) (r : Reviewed)
      → (review W question plan sufficiency claims (some r)).approved ≡ true
      → IsSoundReport claims r
  unfolding review is_approved report_issues coverage consistency
  review-IsSoundReport question plan sufficiency claims r h =
      let issues = report_issues W question plan sufficiency claims r in
      let (quiet, summarised) = neither (any is_serious issues) (str_eq r.executive_summary "") h in
      let h1 = (any-append is_serious (opening W question plan) _ quiet).1 in
      let h2 = (any-append is_serious (clarity W r) _ h1).1 in
      let h3 = (any-append is_serious (completeness W question r) _ h2).1 in
      let (coverage_quiet, h4) = any-append is_serious (coverage r) _ h3 in
      let (claims_quiet, h5) = any-append is_serious (unsupported_claims claims r) _ h4 in
      let (consistency_quiet, _) = any-append is_serious (consistency claims r) _ h5 in
      record {
        summarised = summarised;
        cited = covered r.evidence_ids r.supporting_evidence_ids (
            unraised (any (λ id. not (contains r.evidence_ids id)) r.supporting_evidence_ids) _ refl
              coverage_quiet);
        enough = heeded claims r claims_quiet;
        agreed = unraised (any is_contradiction claims && r.is_confident) _ refl consistency_quiet;
      }
