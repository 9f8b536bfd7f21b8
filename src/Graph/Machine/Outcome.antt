-- ===== src/Graph/Machine/Outcome.antt =====
-- What holds of the state when the walk has ended.
use payops_intelligence.Prelude.{
  ℕ, ◌∙◌, subst, zero, suc, ◌+◌, ◌*◌, ◌≤◌, ◌<◌, ◌≡◌, refl, ◌⊎◌, true, false, Option, none, some,
  is_some, String, arith,
}
use payops_intelligence.Graph.Agents.{Agents, Runtime}
use payops_intelligence.Graph.State.{InvestigationState, initial_state}
use payops_intelligence.Graph.Machine.{
  Node, planner, investigate, aggregate, sufficiency, refine, incident_risk, verifier, critic,
  writer, finish, maximum, is_rejected, Position, step, walk,
}
use payops_intelligence.Graph.Machine.Termination.{walk-finish, maximum-pos}
use payops_intelligence.Graph.Machine.Review.{IsReviewed, walk-IsReviewed}
use payops_intelligence.Graph.Machine.Frame.{investigate_node-Keeps, queue_gaps-Keeps}

module _ {A : Agents} where
  -- Before the first draft: no critique and no revision, and at most the rounds allowed.
  abbrev Drafting : InvestigationState A → Type 0
  Drafting s = (s.critique ≡ none) × (s.critic_revisions ≡ 0)

  abbrev Within : InvestigationState A → Type 0
  Within s = s.iteration ≤ maximum s.max_iterations

  -- The end: a report, a critique, and at most one revision, which only a rejection causes.
  pub record IsComplete (s : InvestigationState A) : Type 0 where
    pub reported : is_some s.report ≡ true
    pub reviewed : is_some s.critique ≡ true
    pub revised : s.critic_revisions ≤ 1
    pub settled : (is_rejected s.critique ≡ false) ⊎ (s.critic_revisions ≡ 1)

  abbrev IsSound : Position A → Type 0
  IsSound (planner, s) = Drafting s × (s.iteration < maximum s.max_iterations)
  IsSound (investigate, s) = Drafting s × (s.iteration < maximum s.max_iterations)
  IsSound (aggregate, s) = Drafting s × Within s
  IsSound (sufficiency, s) = Drafting s × Within s
  IsSound (refine, s) = Drafting s × (s.iteration < maximum s.max_iterations)
  IsSound (incident_risk, s) = Drafting s × Within s
  IsSound (verifier, s) = Drafting s × Within s
  IsSound (writer, s) = (s.critic_revisions ≡ 0) × Within s
  IsSound (critic, s) = (is_some s.report ≡ true) × (s.critic_revisions ≤ 1) × Within s
  IsSound (finish, s) = IsComplete s × Within s

  step-IsSound :
      (runtime : Runtime A) (node : Node) (s : InvestigationState A)
      → IsSound (node, s)
      → IsSound (step runtime (node, s))
  unfolding step
  step-IsSound runtime planner s h = ground arith
  step-IsSound runtime investigate s h = ground (arith, investigate_node-Keeps runtime s)
  step-IsSound runtime aggregate s h = ground arith
  step-IsSound runtime sufficiency s h = ground arith
  step-IsSound runtime refine s h = ground (arith, queue_gaps-Keeps s.pending_tasks s)
  step-IsSound runtime incident_risk s h = ground arith
  step-IsSound runtime verifier s h = ground arith
  step-IsSound runtime critic s h = ground arith
  step-IsSound runtime writer s h = ground arith
  step-IsSound runtime finish s h = h

  walk-IsSound :
      (runtime : Runtime A) (fuel : ℕ) (p : Position A) → IsSound p → IsSound (walk runtime fuel p)
  unfolding walk
  walk-IsSound runtime zero p h = h
  walk-IsSound runtime (suc fuel) (node, s) h =
      walk-IsSound runtime fuel _ (step-IsSound runtime node s h)

  IsSound-IsComplete : (p : Position A) → IsSound p → p.0 ≡ finish → IsComplete p.1 × Within p.1
  IsSound-IsComplete (finish, s) h e = h
  IsSound-IsComplete (planner, s) h e = absurd cc
  IsSound-IsComplete (investigate, s) h e = absurd cc
  IsSound-IsComplete (aggregate, s) h e = absurd cc
  IsSound-IsComplete (sufficiency, s) h e = absurd cc
  IsSound-IsComplete (refine, s) h e = absurd cc
  IsSound-IsComplete (incident_risk, s) h e = absurd cc
  IsSound-IsComplete (verifier, s) h e = absurd cc
  IsSound-IsComplete (critic, s) h e = absurd cc
  IsSound-IsComplete (writer, s) h e = absurd cc

  step_maximum :
      (runtime : Runtime A) (node : Node) (s : InvestigationState A)
      → (step runtime (node, s)).1.max_iterations ≡ s.max_iterations
  unfolding step
  step_maximum runtime planner s = refl
  step_maximum runtime investigate s = (investigate_node-Keeps runtime s).1.0
  step_maximum runtime aggregate s = refl
  step_maximum runtime sufficiency s = refl
  step_maximum runtime refine s = (queue_gaps-Keeps s.pending_tasks s).1.0
  step_maximum runtime incident_risk s = refl
  step_maximum runtime verifier s = refl
  step_maximum runtime critic s = refl
  step_maximum runtime writer s = refl
  step_maximum runtime finish s = refl

  walk_maximum :
      (runtime : Runtime A) (fuel : ℕ) (p : Position A)
      → (walk runtime fuel p).1.max_iterations ≡ p.1.max_iterations
  unfolding walk
  walk_maximum runtime zero p = refl
  walk_maximum runtime (suc fuel) (node, s) =
      walk_maximum runtime fuel (step runtime (node, s)) ∙ step_maximum runtime node s

  pub walk-IsComplete :
      (runtime : Runtime A) (question : String) (max_iterations : ℕ) (merchant_id : Option String)
      → (input_method language response : String) (expanded : Option String) → (fuel : ℕ)
      → 6 * maximum max_iterations + 4 ≤ fuel
      → let s =
          initial_state A question max_iterations merchant_id input_method language response
            expanded in
        let s' = (walk runtime fuel (planner, s)).1 in
        IsComplete s'
        × (s'.iteration ≤ maximum max_iterations)
        × (s'.critique
            ≡ some (A.review s'.question s'.plan s'.sufficiency s'.verified_claims s'.report))
  unfolding initial_state
  walk-IsComplete runtime question max_iterations merchant_id input_method language response
        expanded fuel h =
      let s =
        initial_state A question max_iterations merchant_id input_method language response
          expanded in
      let ended =
        walk-finish runtime question max_iterations merchant_id input_method language response
          expanded fuel h in
      let p = walk runtime fuel (planner, s) in
      let (complete, within) =
        IsSound-IsComplete _
          (walk-IsSound runtime fuel (planner, s) ((refl, refl), maximum-pos max_iterations))
          ended in
      (
        complete,
        subst (λ m. (walk runtime fuel (planner, s)).1.iteration ≤ maximum m)
            (walk_maximum runtime fuel (planner, s)) within,
        subst (λ node. IsReviewed (node, p.1)) ended (walk-IsReviewed runtime fuel (planner, s) tt),
      )
