-- ===== src/Run/Resumption.antt =====
-- src/run/resumption.rs: which steps of a plan are left after a restart of the host. `committed` tells
-- of which jobs the directory of the run has a job_index.json.
use rch_mac.Base.{
  ℕ, suc, ◌-◌, ltb, ◌||◌, Bool, true, false, not, Option, none, some, is_some, if◌then◌else◌, Text,
  text_eq, List, [], ◌∷◌, ◌++◌, length, get_elem?, any, Result, ok, err,
}
use rch_mac.Run.{PlanStep, RunPlan}

pub data ResumptionStepStatus : Type 0 where
  complete needs_status_check needs_resubmit rejected : ResumptionStepStatus

pub record ResumptionState : Type 0 where
  pub plan : RunPlan
  pub step_statuses : List (ℕ × ResumptionStepStatus)
  pub resume_from : Option ℕ
  pub complete_count : ℕ

unfoldable pub is_fully_complete : ResumptionState → Bool
is_fully_complete s = not (is_some s.resume_from)

-- The subtraction of the source is on a `usize`; the count is at most the length.
unfoldable pub steps_remaining : ResumptionState → ℕ
steps_remaining s = length s.plan.steps - s.complete_count

abbrev pub needs_check : ResumptionStepStatus → Bool
needs_check needs_status_check = true
needs_check _ = false

abbrev pub collect : List PlanStep → List (ℕ × ResumptionStepStatus) → List PlanStep
collect steps [] = []
collect steps ((i, s) ∷ l) =
    let rest = collect steps l in
    if needs_check s then elim (get_elem? steps i) [ none ↦ rest | some p ↦ p ∷ rest ] else rest

unfoldable pub steps_needing_status_check : ResumptionState → List PlanStep
steps_needing_status_check s = collect s.plan.steps s.step_statuses

-- The variables of the loop.
pub record Scan : Type 0 where
  pub statuses : List (ℕ × ResumptionStepStatus)
  pub complete_count : ℕ
  pub resume_from : Option ℕ

-- The errors of src/run/mod.rs that a resumption gives.
pub data ResumptionError : Type 0 where
  plan_not_found : ResumptionError
  protocol_drift : (planned min max : ℕ) → ResumptionError
  toolchain_changed : Text → List Text → ResumptionError

module _ (committed : Text → Bool) where
  unfoldable pub visit : PlanStep → Scan → Scan
  visit s a =
      if s.rejected
      then record a { statuses = a.statuses ++ (s.index, rejected) ∷ [] }
      else if committed s.job_id
      then record a {
        statuses = a.statuses ++ (s.index, complete) ∷ [];
        complete_count = suc a.complete_count;
      }
      else record a {
        statuses = a.statuses ++ (s.index, needs_status_check) ∷ [];
        resume_from = if is_some a.resume_from then a.resume_from else some s.index;
      }

  unfoldable pub scan : List PlanStep → Scan → Scan
  unfolding visit
  scan [] a = a
  scan (s ∷ ss) a = scan ss (visit s a)

  -- The plan is what run_plan.json holds; a file that cannot be read is left out.
  unfoldable pub check_resumption_state : Option RunPlan → Result ResumptionState ResumptionError
  unfolding scan
  check_resumption_state none = err plan_not_found
  check_resumption_state (some plan) =
      let a = scan plan.steps (record { statuses = []; complete_count = 0; resume_from = none }) in
      ok (record {
        plan = plan;
        step_statuses = a.statuses;
        resume_from = a.resume_from;
        complete_count = a.complete_count;
      })

unfoldable pub verify_protocol_compatibility : RunPlan → ℕ → ℕ → Option ResumptionError
verify_protocol_compatibility plan min max =
    if ltb plan.protocol_version min || ltb max plan.protocol_version
    then some (protocol_drift plan.protocol_version min max)
    else none

unfoldable pub verify_toolchain_available : Text → List Text → Option ResumptionError
verify_toolchain_available required available =
    if any (λ v. text_eq v required) available
    then none
    else some (toolchain_changed required available)
