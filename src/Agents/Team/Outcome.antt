-- ===== src/Agents/Team/Outcome.antt =====
-- What an investigation ends with, when the critic of the repository reviews its report.
use payops_intelligence.Prelude.{◌≡◌, ◌⊎◌, some}
use payops_intelligence.Graph.Agents.{Agents}
use payops_intelligence.Graph.State.{InvestigationState}
use payops_intelligence.Agents.Critic.Approval.{IsSoundReport}
use payops_intelligence.Agents.Team.{Readers, team}

module _ {A : Agents} (readers : Readers A) where
  -- A report that the critic has approved, or that has been revised once already.
  abbrev pub IsAccepted : InvestigationState (team A readers) → Type 0
  IsAccepted s =
      (r : A.Report) × (s.report ≡ some r)
      × (IsSoundReport s.verified_claims (readers.reviewed_of r) ⊎ (s.critic_revisions ≡ 1))
