-- ===== src/Cancel.antt =====
-- src/cancel/mod.rs: the cancellation of jobs and runs. `cancel_rpc` is `RpcClient::cancel` of
-- src/host/rpc.rs, as a function of the job id; its error is the message that is kept.
pub mod Laws
use rch_mac.Base.{
  ℕ, ◌+◌, ◌==◌, Bool, true, false, Option, none, some, if◌then◌else◌, Text, Result, ok, err, List,
  [], ◌∷◌, ◌++◌,
}
use rch_mac.State.Job.{JobState, JobStateData}
use rch_mac.State.Job as Job
use rch_mac.State.Run.{RunState, RunStateData}
use rch_mac.State.Run as Run
use rch_mac.Signal.{SignalState, unregister_job}

-- src/host/rpc.rs
pub record CancelResponse : Type 0 where
  pub job_id : Text
  pub state : Text
  pub already_terminal : Bool

pub data CancelReason : Type 0 where
  user timeout_overall timeout_idle signal : CancelReason

pub record JobCancellation : Type 0 where
  pub job_id : Text
  pub rpc_success : Bool
  pub worker_state : Option Text
  pub already_terminal : Bool
  pub error : Option Text

-- `JobCancellation::success`
unfoldable pub success : Text → CancelResponse → JobCancellation
success j r = record {
  job_id = j;
  rpc_success = true;
  worker_state = some r.state;
  already_terminal = r.already_terminal;
  error = none;
}

-- `JobCancellation::failure`
unfoldable pub failure : Text → Text → JobCancellation
failure j e = record {
  job_id = j;
  rpc_success = false;
  worker_state = none;
  already_terminal = false;
  error = some e;
}

pub record RunCancellation : Type 0 where
  pub run_id : Text
  pub jobs : List JobCancellation
  pub cancelled_count : ℕ
  pub failed_count : ℕ
  pub already_terminal_count : ℕ

-- `RunCancellation::new`
unfoldable pub new : Text → RunCancellation
new r = record {
  run_id = r;
  jobs = [];
  cancelled_count = 0;
  failed_count = 0;
  already_terminal_count = 0;
}

unfoldable pub add : JobCancellation → RunCancellation → RunCancellation
add r c =
    let c' = record c { jobs = c.jobs ++ (r ∷ []) } in
    if r.already_terminal
    then record c' { already_terminal_count = c.already_terminal_count + 1 }
    else if r.rpc_success
    then record c' { cancelled_count = c.cancelled_count + 1 }
    else record c' { failed_count = c.failed_count + 1 }

unfoldable pub all_succeeded : RunCancellation → Bool
all_succeeded c = c.failed_count == 0

abbrev pub Rpc : Type 0
Rpc = Text → CancelReason → Result CancelResponse Text

-- The manager holds an optional client and an optional signal state; the latter is changed.
unfoldable pub answer : Option Rpc → Text → CancelReason → JobCancellation
unfolding success failure
answer none j reason = record {
  job_id = j;
  rpc_success = true;
  worker_state = none;
  already_terminal = false;
  error = none;
}
answer (some rpc) j reason = elim (rpc j reason) [ ok r ↦ success j r | err e ↦ failure j e ]

unfoldable pub unregister : Text → Option SignalState → Option SignalState
unfolding unregister_job
unregister j none = none
unregister j (some s) = some (unregister_job j s)

unfoldable pub cancel_job :
    Option Rpc → Text → CancelReason → Option SignalState → Option SignalState × JobCancellation
unfolding unregister answer
cancel_job rpc j reason s = (unregister j s, answer rpc j reason)

-- The loop of `cancel_run`, from the result `c` on.
unfoldable pub cancel_each :
    Option Rpc
    → CancelReason
    → List Text
    → Option SignalState
    → RunCancellation
    → Option SignalState × RunCancellation
unfolding cancel_job add
cancel_each rpc reason [] s c = (s, c)
cancel_each rpc reason (j ∷ js) s c =
    let (s', r) = cancel_job rpc j reason s in cancel_each rpc reason js s' (add r c)

unfoldable pub cancel_run :
    Option Rpc
    → Text
    → List Text
    → CancelReason
    → Option SignalState
    → Option SignalState × RunCancellation
unfolding cancel_each new
cancel_run rpc run_id job_ids reason s = cancel_each rpc reason job_ids s (new run_id)

-- The `collect` of `cancel_all_tracked`.
unfoldable pub cancel_collect :
    Option Rpc
    → CancelReason
    → List Text
    → Option SignalState
    → Option SignalState × List JobCancellation
unfolding cancel_job
cancel_collect rpc reason [] s = (s, [])
cancel_collect rpc reason (j ∷ js) s =
    let (s', r) = cancel_job rpc j reason s in
    let (s'', rs) = cancel_collect rpc reason js s' in (s'', r ∷ rs)

abbrev tracked : Option SignalState → List Text
tracked none = []
tracked (some s) = s.running_jobs

unfoldable pub cancel_all_tracked :
    Option Rpc → CancelReason → Option SignalState → Option SignalState × List JobCancellation
unfolding cancel_collect
cancel_all_tracked rpc reason s = cancel_collect rpc reason (tracked s) s

unfoldable pub update_job_state_cancelled : (now counter : ℕ) → JobStateData → Job.Outcome
update_job_state_cancelled now counter d = elim d.state [
  | JobState.queued ↦ Job.apply Job.cancel now counter d
  | JobState.running ↦ Job.apply Job.cancel now counter d
  | JobState.cancel_requested ↦ Job.apply Job.cancel now counter d
  | _ ↦ record { error = none; job = d; counter = counter }
]

unfoldable pub update_run_state_cancelled : (now counter : ℕ) → RunStateData → Run.Outcome
update_run_state_cancelled now counter d = elim d.state [
  | RunState.queued ↦ Run.apply (Run.moves RunState.cancelled) now counter d
  | RunState.running ↦ Run.apply (Run.moves RunState.cancelled) now counter d
  | _ ↦ record { error = none; run = d; counter = counter }
]
