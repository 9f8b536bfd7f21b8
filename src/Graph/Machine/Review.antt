-- ===== src/Graph/Machine/Review.antt =====
-- What the critique at the end of an investigation is a critique of.
use payops_intelligence.Prelude.{ℕ, zero, suc, ◌≡◌, some, arith}
use payops_intelligence.Graph.Agents.{Agents, Runtime}
use payops_intelligence.Graph.State.{InvestigationState}
use payops_intelligence.Graph.Machine.{
  Node, planner, investigate, aggregate, sufficiency, refine, incident_risk, verifier, critic,
  writer, finish, Position, step, walk,
}

module _ {A : Agents} where
  -- At the end, the critique is the critic's of the report and the claims that stand there.
  abbrev pub IsReviewed : Position A → Type 0
  IsReviewed (finish, s) =
      s.critique ≡ some (A.review s.question s.plan s.sufficiency s.verified_claims s.report)
  IsReviewed (_, s) = Unit

  step-IsReviewed :
      (runtime : Runtime A) (node : Node) (s : InvestigationState A)
      → IsReviewed (node, s)
      → IsReviewed (step runtime (node, s))
  unfolding step
  step-IsReviewed runtime planner s h = tt
  step-IsReviewed runtime investigate s h = tt
  step-IsReviewed runtime aggregate s h = tt
  step-IsReviewed runtime sufficiency s h = ground arith
  step-IsReviewed runtime refine s h = tt
  step-IsReviewed runtime incident_risk s h = tt
  step-IsReviewed runtime verifier s h = ground arith
  step-IsReviewed runtime critic s h = ground arith
  step-IsReviewed runtime writer s h = tt
  step-IsReviewed runtime finish s h = h

  pub walk-IsReviewed :
      (runtime : Runtime A) (fuel : ℕ) (p : Position A)
      → IsReviewed p
      → IsReviewed (walk runtime fuel p)
  unfolding walk
  walk-IsReviewed runtime zero p h = h
  walk-IsReviewed runtime (suc fuel) (node, s) h =
      walk-IsReviewed runtime fuel (step runtime (node, s)) (step-IsReviewed runtime node s h)
