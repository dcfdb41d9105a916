-- ===== src/Run/Examples.antt =====
-- The theorems on src/run/mod.rs and the loop of src/pipeline.rs for a plan of three steps.
use rch_mac.Base.{
  ℕ, zero, suc, map, any, text_eq, ◌↔◌, Bool, true, false, some, Text, text, ok, List, [], ◌∷◌, ◌≡◌,
  refl, arith,
}
use rch_mac.Run.{
  Action, Status, PlanStep, RunPlan, RunPlanBuilder, WorkerSelection, StepResult, RunExecution,
  ExecutionState, Ending, build, test, plan_step, plan_steps, build_with_classifier_results,
  execute_steps, new, record_result, should_continue, next_step,
}
use rch_mac.Run.Spec.{outcome}
use rch_mac.Run.Laws.{execute_steps-outcome}
use rch_mac.Run.Ends.{execute_steps-total}
use rch_mac.Run.Resumption.{
  ResumptionState, check_resumption_state, is_fully_complete, steps_remaining, complete, rejected,
  needs_status_check,
}
use rch_mac.Run.Resuming.{
  first_index, status_of, count, finished, pending, check_resumption_state-first,
}

abbrev job_ids : ℕ → Text
job_ids zero = text "job-0"
job_ids (suc zero) = text "job-1"
job_ids _ = text "job-2"

abbrev builder : RunPlanBuilder
builder = record {
  run_id = text "run";
  actions = build ∷ test ∷ test ∷ [];
  continue_on_failure = true;
}

abbrev verdicts : List (Bool × List Text)
verdicts = (true, []) ∷ (false, text "DISALLOWED_ACTION" ∷ []) ∷ (true, []) ∷ []

abbrev worker : WorkerSelection
worker = record {
  selected_worker = text "mini";
  selected_worker_host = text "mini.local";
  negotiated_protocol_version = 1;
}

abbrev plan : RunPlan
plan = record {
  schema_version = 1;
  schema_id = text "rch-xcode/run_plan@1";
  created_at = 7;
  run_id = text "run";
  steps =
      plan_step 0 (text "job-0") build (true, [])
      ∷ plan_step 1 (text "job-1") test (false, text "DISALLOWED_ACTION" ∷ [])
      ∷ plan_step 2 (text "job-2") test (true, [])
      ∷ [];
  selected_worker = text "mini";
  selected_worker_host = text "mini.local";
  continue_on_failure = true;
  protocol_version = 1;
}

builds : build_with_classifier_results 7 job_ids builder verdicts worker ≡ ok plan
unfolding build_with_classifier_results plan_steps
builds = refl

-- The first step fails, the last one succeeds.
abbrev statuses : PlanStep → Status
statuses s = elim s.action [ build ↦ Status.failed | test ↦ Status.success ]

abbrev never : ℕ → Bool
never n = false

abbrev always : ℕ → Bool
always n = true

execute_steps-outcome_example :
    execute_steps statuses never 4 (new plan) ≡ some (Ending.finished (outcome statuses plan))
execute_steps-outcome_example =
    execute_steps-outcome statuses never plan 4 (λ i. refl) (omega arith)

execute_steps-total_example : (x : Ending) × (execute_steps statuses always 4 (new plan) ≡ some x)
execute_steps-total_example = execute_steps-total statuses always plan 4 (omega arith)

abbrev failed_step : StepResult
failed_step = record {
  step = plan_step 2 (text "job-2") test (true, []);
  status = Status.failed;
  skipped = false;
}

-- The job of the first step is committed, the second step was rejected.
abbrev committed : Text → Bool
committed j = text_eq j (text "job-0")

abbrev resumed : ResumptionState
resumed = record {
  plan = plan;
  step_statuses = (0, complete) ∷ (1, rejected) ∷ (2, needs_status_check) ∷ [];
  resume_from = some 2;
  complete_count = 1;
}

check_resumption_state-first_example :
    (resumed.resume_from ≡ first_index committed plan.steps)
    × (resumed.step_statuses ≡ map (λ (s : PlanStep). (s.index, status_of committed s)) plan.steps)
    × (resumed.complete_count ≡ count committed (finished committed) plan.steps)
    × ((is_fully_complete resumed ≡ true) ↔ (any (pending committed) plan.steps ≡ false))
unfolding check_resumption_state plan_step text_eq rch_mac.Run.Resumption.scan
check_resumption_state-first_example = check_resumption_state-first committed plan resumed refl
