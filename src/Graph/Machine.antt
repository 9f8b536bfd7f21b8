-- ===== src/Graph/Machine.antt =====
-- packages/payops_core/graph/build.py with the routes of nodes.py: the nodes, the edges between
-- them, and the walk along the edges. The walk takes the number of node visits as fuel.
pub mod Frame
pub mod Termination
pub mod Outcome
pub mod Review
use payops_intelligence.Prelude.{
  ℕ, zero, suc, Bool, true, false, not, ◌&&◌, ◌||◌, Option, none, some, is_some, String, str_eq,
  ltb, leb, ◌==◌, if◌then◌else◌,
}
use payops_intelligence.Graph.Types.{SufficiencyVerdict, VerificationResult, CritiqueResult}
use payops_intelligence.Graph.Agents.{Agents, Runtime}
use payops_intelligence.Graph.State.{InvestigationState}
use payops_intelligence.Graph.Investigate.{investigate_node}
use payops_intelligence.Graph.Nodes.{
  planner_node, aggregate_node, sufficiency_node, refine_node, incident_node, verifier_node,
  critic_node, writer_node,
}

-- `finish` is the graph's `END`.
pub data Node : Type 0 where
  planner investigate aggregate sufficiency refine incident_risk verifier critic writer : Node
  finish : Node

-- `int(state.get("max_iterations") or 1)`
unfoldable pub maximum : ℕ → ℕ
maximum n = if n == 0 then 1 else n

-- The truth value of an optional error text.
unfoldable pub has_text : Option String → Bool
has_text none = false
has_text (some text) = not (str_eq text "")

unfoldable pub is_sufficient : Option SufficiencyVerdict → Bool
is_sufficient none = false
is_sufficient (some v) = v.sufficient

unfoldable pub wants_evidence : Option VerificationResult → Bool
wants_evidence none = false
wants_evidence (some v) = v.needs_more_evidence

unfoldable pub is_rejected : Option CritiqueResult → Bool
is_rejected none = false
is_rejected (some c) = not c.approved

-- The node to visit next, and the state.
abbrev pub Position : Agents → Type 0
Position A = Node × InvestigationState A

module _ {A : Agents} where
  unfoldable pub route_after_sufficiency : InvestigationState A → Node
  unfolding maximum has_text is_sufficient
  route_after_sufficiency s =
      if s.timed_out || has_text s.error
      then writer
      else if is_sufficient s.sufficiency
      then incident_risk
      else if leb (maximum s.max_iterations) s.iteration
      then writer
      else refine

  unfoldable pub route_after_verifier : InvestigationState A → Node
  unfolding maximum has_text wants_evidence
  route_after_verifier s =
      if s.timed_out || has_text s.error
      then writer
      else if wants_evidence s.verification && ltb s.iteration (maximum s.max_iterations)
      then refine
      else writer

  unfoldable pub route_after_critic : InvestigationState A → Node
  unfolding is_rejected
  route_after_critic s =
      if is_rejected s.critique && ltb s.critic_revisions 1 then writer else finish

  -- `build_investigation_graph`: what a node does, and the edge that leaves it.
  unfoldable pub step : Runtime A → Position A → Position A
  unfolding planner_node investigate_node aggregate_node sufficiency_node refine_node incident_node
      verifier_node critic_node writer_node route_after_sufficiency route_after_verifier
      route_after_critic
  step runtime (planner, s) = (investigate, planner_node s)
  step runtime (investigate, s) = (aggregate, investigate_node runtime s)
  step runtime (aggregate, s) = (sufficiency, aggregate_node s)
  step runtime (sufficiency, s) = let s' = sufficiency_node s in (route_after_sufficiency s', s')
  step runtime (refine, s) = (investigate, refine_node s)
  step runtime (incident_risk, s) = (verifier, incident_node s)
  step runtime (verifier, s) = let s' = verifier_node s in (route_after_verifier s', s')
  step runtime (critic, s) = let s' = critic_node s in (route_after_critic s', s')
  step runtime (writer, s) = (critic, writer_node runtime s)
  step runtime (finish, s) = (finish, s)

  -- `graph.invoke`: at most this many node visits.
  unfoldable pub walk : Runtime A → ℕ → Position A → Position A
  unfolding step
  walk runtime zero p = p
  walk runtime (suc fuel) p = walk runtime fuel (step runtime p)
