-- ===== src/Graph/Machine/Frame.antt =====
-- What a round of investigation and the refinement after it leave alone.
use payops_intelligence.Prelude.{[], ◌∷◌, List, ◌+◌, ◌≡◌, refl, inl, inr, Bool-cases}
use payops_intelligence.Graph.Types.{Task}
use payops_intelligence.Graph.Agents.{Agents, Runtime}
use payops_intelligence.Graph.State.{InvestigationState}
use payops_intelligence.Graph.Investigate.{
  LoopEnd, finished, interrupted, investigate_node, work, conclude,
}
use payops_intelligence.Graph.Nodes.{queue_gaps}

module _ {A : Agents} where
  -- The fields that the routes read and a round of investigation leaves alone.
  abbrev pub Keeps : InvestigationState A → InvestigationState A → Type 0
  Keeps s s' =
      (s'.max_iterations ≡ s.max_iterations)
      × (s'.critique ≡ s.critique)
      × (s'.critic_revisions ≡ s.critic_revisions)

  conclude-Keeps :
      (runtime : Runtime A) (e : LoopEnd A) (s : InvestigationState A)
      → let s' = conclude runtime e s in (s'.iteration ≡ s.iteration + 1) × Keeps s s'
  unfolding conclude
  conclude-Keeps runtime (finished p n) s = (refl, (refl, refl, refl))
  conclude-Keeps runtime (interrupted pending p n) s = (refl, (refl, refl, refl))

  work-Keeps :
      (runtime : Runtime A) (pending : List Task) (s : InvestigationState A)
      → let s' = work runtime pending s in (s'.iteration ≡ s.iteration + 1) × Keeps s s'
  unfolding work
  work-Keeps runtime [] s = (refl, (refl, refl, refl))
  work-Keeps runtime (task ∷ pending) s = conclude-Keeps runtime _ s

  pub investigate_node-Keeps :
      (runtime : Runtime A) (s : InvestigationState A)
      → let s' = investigate_node runtime s in (s'.iteration ≡ s.iteration + 1) × Keeps s s'
  unfolding investigate_node
  investigate_node-Keeps runtime s = elim (Bool-cases (runtime.expired s.readings)) [
    | inl late ↦ rw late (refl, (refl, refl, refl))
    | inr early ↦ rw early (work-Keeps runtime s.pending_tasks s)
  ]

  pub queue_gaps-Keeps :
      (pending : List Task) (s : InvestigationState A)
      → let s' = queue_gaps pending s in (s'.iteration ≡ s.iteration) × Keeps s s'
  unfolding queue_gaps
  queue_gaps-Keeps [] s = (refl, (refl, refl, refl))
  queue_gaps-Keeps (task ∷ pending) s = (refl, (refl, refl, refl))
