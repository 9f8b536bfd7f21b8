-- ===== src/Graph/Machine/Termination.antt =====
-- The walk ends: every visit lowers a bound on the visits that are left.
use payops_intelligence.Prelude.{
  ℕ, zero, suc, ◌+◌, ◌-◌, ◌*◌, ◌≤◌, ◌<◌, ◌≡◌, refl, ◌≢◌, Option, none, some, String, arith, ltb,
  if◌then◌else◌,
}
use payops_intelligence.Graph.Types.{CritiqueResult}
use payops_intelligence.Graph.Agents.{Agents, Runtime}
use payops_intelligence.Graph.State.{InvestigationState, initial_state}
use payops_intelligence.Graph.Machine.{
  Node, planner, investigate, aggregate, sufficiency, refine, incident_risk, verifier, critic,
  writer, finish, maximum, Position, step, walk,
}
use payops_intelligence.Graph.Machine.Frame.{investigate_node-Keeps, queue_gaps-Keeps}

abbrev writing : Option CritiqueResult → ℕ
writing none = 4
writing (some critique) = 2

abbrev judging : ℕ → ℕ
judging revisions = if ltb revisions 1 then 3 else 1

pub maximum-pos : (n : ℕ) → 1 ≤ maximum n
unfolding maximum
maximum-pos n = ground arith

module _ {A : Agents} where
  -- The rounds of investigation that are left.
  abbrev left : InvestigationState A → ℕ
  left s = maximum s.max_iterations - s.iteration

  -- A bound on the visits that are left.
  rank : Position A → ℕ
  rank (planner, s) = 6 * (left s - 1) + 10
  rank (investigate, s) = 6 * (left s - 1) + 9
  rank (aggregate, s) = 6 * left s + 8
  rank (sufficiency, s) = 6 * left s + 7
  rank (incident_risk, s) = 6 * left s + 6
  rank (verifier, s) = 6 * left s + 5
  rank (refine, s) = 6 * (left s - 1) + 10
  rank (writer, s) = writing s.critique
  rank (critic, s) = judging s.critic_revisions
  rank (finish, s) = 0

  step-rank :
      (runtime : Runtime A) (node : Node) (s : InvestigationState A)
      → node ≢ finish
      → rank (step runtime (node, s)) < rank (node, s)
  unfolding step rank
  step-rank runtime planner s h = ground arith
  step-rank runtime investigate s h = ground (arith, investigate_node-Keeps runtime s)
  step-rank runtime aggregate s h = ground arith
  step-rank runtime sufficiency s h = ground arith
  step-rank runtime refine s h = ground (arith, queue_gaps-Keeps s.pending_tasks s)
  step-rank runtime incident_risk s h = ground arith
  step-rank runtime verifier s h = ground arith
  step-rank runtime critic s h = ground arith
  step-rank runtime writer s h = ground arith
  step-rank runtime finish s h = absurd (h refl)

  rank_end : (node : Node) (s : InvestigationState A) → rank (node, s) ≡ 0 → node ≡ finish
  unfolding rank
  rank_end planner s h = absurd (omega arith)
  rank_end finish s h = refl
  rank_end writer s h = ground arith
  rank_end critic s h = ground arith
  rank_end _ s h = absurd (omega arith)

  step_le :
      (runtime : Runtime A) (fuel : ℕ) (node : Node) (s : InvestigationState A)
      → rank (node, s) ≤ suc fuel
      → rank (step runtime (node, s)) ≤ fuel
  unfolding step rank
  step_le runtime fuel finish s h = omega arith
  step_le runtime fuel node s h = omega (arith, step-rank runtime node s (λ e. cc))

  walk_ends :
      (runtime : Runtime A) (fuel : ℕ) (p : Position A)
      → rank p ≤ fuel
      → (walk runtime fuel p).0 ≡ finish
  unfolding walk
  walk_ends runtime zero (node, s) h = rank_end node s (omega arith)
  walk_ends runtime (suc fuel) (node, s) h =
      walk_ends runtime fuel (step runtime (node, s)) (step_le runtime fuel node s h)

  -- Every investigation ends: from its initial state the graph reaches its end within six visits
  -- for each round allowed and four more, whatever the agents answer and the clock reads.
  pub walk-finish :
      (runtime : Runtime A) (question : String) (max_iterations : ℕ) (merchant_id : Option String)
      → (input_method language response : String) (expanded : Option String) → (fuel : ℕ)
      → 6 * maximum max_iterations + 4 ≤ fuel
      → let s =
          initial_state A question max_iterations merchant_id input_method language response
            expanded in
        (walk runtime fuel (planner, s)).0 ≡ finish
  unfolding rank initial_state
  walk-finish runtime question max_iterations merchant_id input_method language response expanded
        fuel h =
      walk_ends runtime fuel _ (omega (arith, maximum-pos max_iterations))
