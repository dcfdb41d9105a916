-- ===== src/Run/Spec.antt =====
-- What a run is to record, without the loop of src/pipeline.rs and the state it keeps.
use rch_mac.Base.{Bool, ◌&&◌, not, if◌then◌else◌, List, [], ◌∷◌, any, is_empty}
use rch_mac.Run.{
  PlanStep, RunPlan, StepResult, ExecutionState, Status, RunExecution, step_result,
  counts_as_failure,
}

module _ (execute_step : PlanStep → Status) where
  -- The results of the steps in order, up to the first that fails unless failures are passed over.
  abbrev pub expected : (continue_on_failure : Bool) → List PlanStep → List StepResult
  expected go [] = []
  expected go (s ∷ ss) =
      let r = step_result execute_step s in
      let rest = expected go ss in if counts_as_failure r && not go then r ∷ [] else r ∷ rest

  -- A run without steps stays pending; any other one fails when a recorded result counts as a failure.
  abbrev pub verdict : RunPlan → ExecutionState
  verdict p =
      if is_empty p.steps
      then ExecutionState.pending
      else if any counts_as_failure (expected p.continue_on_failure p.steps)
      then ExecutionState.failed
      else ExecutionState.succeeded

  abbrev pub outcome : RunPlan → RunExecution
  outcome p = record {
    plan = p;
    results = expected p.continue_on_failure p.steps;
    state = verdict p;
  }
