-- ===== src/Graph/Investigate/Rounds.antt =====
-- What the loop over the pending tasks does with each of them.
use payops_intelligence.Prelude.{
  ◌≡◌, ◌⊎◌, Bool, true, false, List, [], ◌∷◌, ◌++◌, String, if◌then◌else◌,
}
use payops_intelligence.Graph.Types.{Task}
use payops_intelligence.Graph.Agents.{Attempt, gave, raised, Agents}
use payops_intelligence.Graph.State.{InvestigationState}
use payops_intelligence.Graph.Tasks.{run_task}
use payops_intelligence.Graph.Investigate.{Progress, LoopEnd, finished, interrupted}

abbrev succeeded : {B : Type 0} → Attempt B → Bool
succeeded (gave b) = true
succeeded (raised name text) = false

module _ {A : Agents} where
  -- The identifiers of the tasks that return a result.
  abbrev pub successes : InvestigationState A → List Task → List String
  successes s [] = []
  successes s (task ∷ tasks) =
      if succeeded (run_task s task) then task.task_id ∷ successes s tasks else successes s tasks

  -- The tasks run so far and those left, where tasks are left only after a timeout.
  pub record Split (s s' : InvestigationState A) : Type 0 where
    pub run : List Task
    pub in_order : s.pending_tasks ≡ run ++ s'.pending_tasks
    pub recorded : s'.completed_task_ids ≡ s.completed_task_ids ++ successes s run
    pub stopped : (s'.pending_tasks ≡ []) ⊎ (s'.timed_out ≡ true)

  abbrev progress_of : LoopEnd A → Progress A
  progress_of (finished p n) = p
  progress_of (interrupted pending p n) = p

  abbrev left_of : LoopEnd A → List Task
  left_of (finished p n) = []
  left_of (interrupted pending p n) = pending

  record LoopSplit (s : InvestigationState A) (tasks : List Task) (p : Progress A) (e : LoopEnd A)
      : Type 0 where
    run : List Task
    in_order : tasks ≡ run ++ left_of e
    recorded : (progress_of e).completed ≡ p.completed ++ successes s run
