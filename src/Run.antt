-- ===== src/Run.antt =====
-- src/run/mod.rs: the plan of a run and its execution, and the loop of `execute_run` of
-- src/pipeline.rs that drives it. `job_ids` is what the calls of `generate_job_id` give, in order.
pub mod Spec
pub mod Laws
pub mod Plan
pub mod Ends
pub mod Resumption
pub mod Resuming
pub mod Examples
use rch_mac.Base.{
  ℕ, zero, suc, ◌+◌, ltb, leb, ◌==◌, Bool, true, false, ◌&&◌, ◌||◌, not, Option, none, some,
  if◌then◌else◌, Text, text, Result, ok, err, List, [], ◌∷◌, ◌++◌, length, map, filter, any,
  is_empty, last?, get_elem?,
}

-- src/job/types.rs
pub data Action : Type 0 where
  build test : Action

-- src/summary/failure.rs
pub data Status : Type 0 where
  success failed rejected cancelled : Status

pub record PlanStep : Type 0 where
  pub index : ℕ
  pub action : Action
  pub job_id : Text
  pub rejected : Bool
  pub rejection_reasons : List Text

pub record RunPlan : Type 0 where
  pub schema_version : ℕ
  pub schema_id : Text
  pub created_at : ℕ
  pub run_id : Text
  pub steps : List PlanStep
  pub selected_worker : Text
  pub selected_worker_host : Text
  pub continue_on_failure : Bool
  pub protocol_version : ℕ

abbrev pub schema_version : ℕ
schema_version = 1

abbrev pub schema_id : Text
schema_id = text "rch-xcode/run_plan@1"

-- The fields of `WorkerSelection` that a plan takes over.
pub record WorkerSelection : Type 0 where
  pub selected_worker : Text
  pub selected_worker_host : Text
  pub negotiated_protocol_version : ℕ

-- The other variants are errors of files, of other parts and of resumption.
pub data RunError : Type 0 where
  no_actions : RunError
  classifier_error : Text → RunError

pub record RunPlanBuilder : Type 0 where
  pub run_id : Text
  pub actions : List Action
  pub continue_on_failure : Bool

-- A job id and the verdict of the classifier make a step of an action.
unfoldable pub plan_step : (index : ℕ) → (job_id : Text) → Action → Bool × List Text → PlanStep
plan_step i j a (accepted, reasons) = record {
  index = i;
  action = a;
  job_id = j;
  rejected = not accepted;
  rejection_reasons = if accepted then [] else reasons;
}

-- The loop over the zipped lists, from index `i`.
unfoldable pub plan_steps :
    (ℕ → Text) → (i : ℕ) → List Action → List (Bool × List Text) → List PlanStep
unfolding plan_step
plan_steps job_ids i (a ∷ actions) (r ∷ results) =
    plan_step i (job_ids i) a r ∷ plan_steps job_ids (i + 1) actions results
plan_steps job_ids i _ _ = []

unfoldable pub build_with_classifier_results :
    (now : ℕ)
    → (job_ids : ℕ → Text) → RunPlanBuilder
    → List (Bool × List Text)
    → WorkerSelection
    → Result RunPlan RunError
unfolding plan_steps
build_with_classifier_results now job_ids b results w =
    if is_empty b.actions
    then err no_actions
    else if not (length results == length b.actions)
    then err (classifier_error (text "classifier results count does not match actions"))
    else ok (record {
      schema_version = schema_version;
      schema_id = schema_id;
      created_at = now;
      run_id = b.run_id;
      steps = plan_steps job_ids 0 b.actions results;
      selected_worker = w.selected_worker;
      selected_worker_host = w.selected_worker_host;
      continue_on_failure = b.continue_on_failure;
      protocol_version = w.negotiated_protocol_version;
    })

unfoldable pub build_all_accepted :
    ℕ → (ℕ → Text) → RunPlanBuilder → WorkerSelection → Result RunPlan RunError
build_all_accepted now job_ids b w =
    build_with_classifier_results now job_ids b (map (λ (a : Action). (true, [])) b.actions) w

pub data ExecutionState : Type 0 where
  pending running succeeded failed cancelled : ExecutionState

pub record StepResult : Type 0 where
  pub step : PlanStep
  pub status : Status
  pub skipped : Bool

pub record RunExecution : Type 0 where
  pub plan : RunPlan
  pub results : List StepResult
  pub state : ExecutionState

unfoldable pub new : RunPlan → RunExecution
new p = record { plan = p; results = []; state = ExecutionState.pending }

unfoldable pub next_step : RunExecution → Option PlanStep
next_step e = get_elem? e.plan.steps (length e.results)

unfoldable pub has_executable_steps : RunExecution → Bool
has_executable_steps e = any (λ (s : PlanStep). not s.rejected) e.plan.steps

-- `matches!(status, Status::Failed | Status::Rejected)`
abbrev pub is_failure : Status → Bool
is_failure Status.failed = true
is_failure Status.rejected = true
is_failure _ = false

abbrev pub counts_as_failure : StepResult → Bool
counts_as_failure r = is_failure r.status && not r.skipped

unfoldable pub update_state : RunExecution → RunExecution
update_state e =
    let has_failure = any counts_as_failure e.results in
    let all_done = leb (length e.plan.steps) (length e.results) in
    record e {
      state =
          if has_failure && not e.plan.continue_on_failure
          then ExecutionState.failed
          else if all_done
          then (if has_failure then ExecutionState.failed else ExecutionState.succeeded)
          else ExecutionState.running;
    }

unfoldable pub record_result : StepResult → RunExecution → RunExecution
unfolding update_state
record_result r e = update_state (record e { results = e.results ++ (r ∷ []) })

unfoldable pub cancel : RunExecution → RunExecution
cancel e = record e { state = ExecutionState.cancelled }

is_cancelled : ExecutionState → Bool
is_cancelled ExecutionState.cancelled = true
is_cancelled _ = false

after : RunExecution → Option StepResult → Bool
after e (some r) =
    if is_failure r.status
    then e.plan.continue_on_failure
    else ltb (length e.results) (length e.plan.steps)
after e none = ltb (length e.results) (length e.plan.steps)

unfoldable pub should_continue : RunExecution → Bool
unfolding is_cancelled after
should_continue e = if is_cancelled e.state then false else after e (last? e.results)

-- How the loop of `execute_run` ends.
pub data Ending : Type 0 where
  finished timed_out : RunExecution → Ending

-- The loop. `execute_step` is the status of the step's summary, or `failed` for an error. The
-- summaries and the directory of the step, whose errors leave the loop, are left out.
module _ (execute_step : PlanStep → Status) where
  -- The result that the body records for a step.
  abbrev pub step_result : PlanStep → StepResult
  step_result s =
      if s.rejected
      then record { step = s; status = Status.rejected; skipped = true }
      else record { step = s; status = execute_step s; skipped = false }

  -- `late n` tells whether the overall timeout has passed once `n` results are recorded.
  unfoldable pub execute_steps : (late : ℕ → Bool) → (fuel : ℕ) → RunExecution → Option Ending
  unfolding record_result should_continue next_step
  execute_steps late zero e = none
  execute_steps late (suc n) e = elim (next_step e) [
    | none ↦ some (finished e)
    | some s ↦
        let e' = record_result (step_result s) e in
        let rest = execute_steps late n e' in
        if s.rejected
        then rest
        else if not (should_continue e')
        then some (finished e')
        else if late (length e'.results)
        then some (timed_out e')
        else rest
  ]
