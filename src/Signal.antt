-- ===== src/Signal.antt =====
-- src/signal/mod.rs: the state that the signal handler shares with the run. The mutexes are never
-- poisoned in the model (no code panics while it holds one), and an atomic operation is one step.
pub mod Laws
use rch_mac.Base.{
  ℕ, ◌+◌, ◌*◌, ◌%◌, ◌==◌, Bool, true, false, not, Option, none, some, if◌then◌else◌, Text, text_eq,
  List, [], ◌∷◌, ◌++◌, filter,
}

pub data SignalAction : Type 0 where
  initiate_cancellation immediate_exit ignore : SignalAction

pub record SignalState : Type 0 where
  pub cancel_requested : Bool
  pub immediate_exit_requested : Bool
  pub signal_count : ℕ
  pub running_jobs : List Text
  pub run_id : Option Text
  pub artifact_dir : Option Text
  pub grace_period : ℕ

-- `with_grace_period`
unfoldable pub with_grace_period : ℕ → SignalState
with_grace_period g = record {
  cancel_requested = false;
  immediate_exit_requested = false;
  signal_count = 0;
  running_jobs = [];
  run_id = none;
  artifact_dir = none;
  grace_period = g;
}

-- The counter is an `AtomicU8`, whose `fetch_add` wraps around.
unfoldable pub fetch_add : SignalState → SignalState
fetch_add s = record s { signal_count = (s.signal_count + 1) % 256 }

-- The state after the signal, and what is to be done.
unfoldable pub handle_signal : SignalState → SignalState × SignalAction
unfolding fetch_add
handle_signal s =
    if s.signal_count == 0
    then (record (fetch_add s) { cancel_requested = true }, initiate_cancellation)
    else if s.signal_count == 1
    then (record (fetch_add s) { immediate_exit_requested = true }, immediate_exit)
    else (fetch_add s, ignore)

unfoldable pub register_job : Text → SignalState → SignalState
register_job j s = record s { running_jobs = s.running_jobs ++ (j ∷ []) }

unfoldable pub unregister_job : Text → SignalState → SignalState
unregister_job j s = record s { running_jobs = filter (λ i. not (text_eq i j)) s.running_jobs }

unfoldable pub set_run_id : Text → SignalState → SignalState
set_run_id r s = record s { run_id = some r }

unfoldable pub set_artifact_dir : Text → SignalState → SignalState
set_artifact_dir d s = record s { artifact_dir = some d }

unfoldable pub reset : SignalState → SignalState
reset s = record s {
  cancel_requested = false;
  immediate_exit_requested = false;
  signal_count = 0;
  running_jobs = [];
  run_id = none;
  artifact_dir = none;
}

-- What happens to the state while a run is on.
pub data Event : Type 0 where
  signal : Event
  started finished : Text → Event

unfoldable pub handle : Event → SignalState → SignalState
unfolding handle_signal register_job unregister_job
handle signal s = (handle_signal s).0
handle (started j) s = register_job j s
handle (finished j) s = unregister_job j s

unfoldable pub handle_all : List Event → SignalState → SignalState
unfolding handle
handle_all [] s = s
handle_all (e ∷ es) s = handle_all es (handle e s)
