-- ===== src/Agents/Team.antt =====
-- packages/payops_core/graph/nodes.py: the graph with the verifier and the critic that its nodes
-- call, `VerifierAgent().verify` and `CriticAgent().review`.
pub mod Outcome
use payops_intelligence.Prelude.{Option, none, some, List, map}
use payops_intelligence.Graph.Agents.{Agents}
use payops_intelligence.Agents.Verifier.{Reading, Hypothesis, verify}
use payops_intelligence.Agents.Critic.{Wording, Reviewed, review}

abbrev pub viewed {ℓ κ} : {A : Type ℓ} {B : Type κ} → (A → B) → Option A → Option B
viewed f none = none
viewed f (some a) = some (f a)

-- What the two agents read of a hypothesis and of a report.
pub record Readers (A : Agents) : Type 1 where
  pub reading : Reading
  pub wording : Wording
  pub hypothesis_of : A.Hypothesis → Hypothesis reading
  pub reviewed_of : A.Report → Reviewed

-- The agents, with the verifier and the critic of the repository.
abbrev pub team : (A : Agents) → Readers A → Agents
team A readers = record A {
  verify =
      λ hypotheses evidence. verify readers.reading (map readers.hypothesis_of hypotheses) evidence;
  review = λ question plan sufficiency claims report.
      review readers.wording question plan sufficiency claims (viewed readers.reviewed_of report);
}
