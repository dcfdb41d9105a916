-- ===== src/State/Run.antt =====
-- src/state/run_state.rs: the states of a run, the transitions, and the run_state.json record with
-- its current step, its lease and its resumption mark.
pub mod Laws
pub mod Examples
use rch_mac.Base.{
  ℕ, ◌+◌, ◌%◌, Bool, true, false, Option, none, some, is_some, if◌then◌else◌, Text, text, List, [],
  ◌∷◌,
}
use rch_mac.State.Counter.{next_seq}

pub data RunState : Type 0 where
  queued running succeeded failed cancelled : RunState

abbrev pub is_terminal : RunState → Bool
is_terminal RunState.succeeded = true
is_terminal RunState.failed = true
is_terminal RunState.cancelled = true
is_terminal _ = false

unfoldable pub can_transition_to : RunState → RunState → Bool
can_transition_to RunState.queued RunState.running = true
can_transition_to RunState.queued RunState.cancelled = true
can_transition_to RunState.queued RunState.failed = true
can_transition_to RunState.running RunState.succeeded = true
can_transition_to RunState.running RunState.failed = true
can_transition_to RunState.running RunState.cancelled = true
can_transition_to _ _ = false

pub record CurrentStep : Type 0 where
  pub index : ℕ
  pub job_id : Text
  pub action : Text

pub record LeaseInfo : Type 0 where
  pub lease_id : Text
  pub acquired_at : ℕ
  pub ttl_seconds : ℕ
  pub renewed : Bool
  pub renewal_count : ℕ

abbrev pub schema_version : ℕ
schema_version = 1

abbrev pub schema_id : Text
schema_id = text "rch-xcode/run_state@1"

pub record RunStateData : Type 0 where
  pub schema_version : ℕ
  pub schema_id : Text
  pub run_id : Text
  pub state : RunState
  pub created_at : ℕ
  pub updated_at : ℕ
  pub current_step : Option CurrentStep
  pub lease : Option LeaseInfo
  pub resumed_at : Option ℕ
  pub seq : ℕ

-- The variants for files and serde are left out, and `TerminalState` is never built.
pub data RunStateError : Type 0 where
  invalid_transition : (from to : RunState) → RunStateError
  terminal_state : RunState → RunStateError

pub record Outcome : Type 0 where
  pub error : Option RunStateError
  pub run : RunStateData
  pub counter : ℕ

-- `RunStateData::new`
unfoldable pub new : (run_id : Text) (now counter : ℕ) → RunStateData × ℕ
new run_id now counter =
    let (seq, counter') = next_seq counter in
    (
      record {
        schema_version = schema_version;
        schema_id = schema_id;
        run_id = run_id;
        state = RunState.queued;
        created_at = now;
        updated_at = now;
        current_step = none;
        lease = none;
        resumed_at = none;
        seq = seq;
      },
      counter',
    )

unfoldable pub transition : RunState → (now counter : ℕ) → RunStateData → Outcome
unfolding next_seq
transition new_state now counter d =
    let step = if is_terminal new_state then none else d.current_step in
    if can_transition_to d.state new_state
    then record {
      error = none;
      run = record d {
        state = new_state;
        updated_at = now;
        current_step = step;
        seq = (next_seq counter).0;
      };
      counter = (next_seq counter).1;
    }
    else record { error = some (invalid_transition d.state new_state); run = d; counter = counter }

-- The stamp that the setters put on the record.
touch : (now counter : ℕ) → RunStateData → Outcome
unfolding next_seq
touch now counter d = record {
  error = none;
  run = record d { updated_at = now; seq = (next_seq counter).0 };
  counter = (next_seq counter).1;
}

unfoldable pub set_current_step : CurrentStep → (now counter : ℕ) → RunStateData → Outcome
unfolding touch
set_current_step step now counter d = touch now counter (record d { current_step = some step })

unfoldable pub clear_current_step : (now counter : ℕ) → RunStateData → Outcome
unfolding touch
clear_current_step now counter d = touch now counter (record d { current_step = none })

unfoldable pub set_lease : Text → ℕ → (now counter : ℕ) → RunStateData → Outcome
unfolding touch
set_lease lease_id ttl_seconds now counter d = touch now counter (record d {
  lease = some (record {
    lease_id = lease_id;
    acquired_at = now;
    ttl_seconds = ttl_seconds;
    renewed = false;
    renewal_count = 0;
  });
})

-- `renewal_count += 1` on a u32, which wraps in a release build.
renew : ℕ → Option LeaseInfo → Option LeaseInfo
renew now none = none
renew now (some l) = some (record l {
  renewed = true;
  renewal_count = (l.renewal_count + 1) % 4294967296;
  acquired_at = now;
})

unfoldable pub mark_lease_renewed : (now counter : ℕ) → RunStateData → Outcome
unfolding touch renew
mark_lease_renewed now counter d = touch now counter (record d { lease = renew now d.lease })

unfoldable pub clear_lease : (now counter : ℕ) → RunStateData → Outcome
unfolding touch
clear_lease now counter d = touch now counter (record d { lease = none })

unfoldable pub mark_resumed : (now counter : ℕ) → RunStateData → Outcome
unfolding touch
mark_resumed now counter d = touch now counter (record d { resumed_at = some now })

pub is_resumed : RunStateData → Bool
is_resumed d = is_some d.resumed_at

-- Every method that changes a run. `start`, `succeed`, `fail` and `cancel` are `moves` to RUNNING,
-- SUCCEEDED, FAILED and CANCELLED.
pub data Op : Type 0 where
  moves : RunState → Op
  steps : CurrentStep → Op
  clears_step : Op
  leases : Text → ℕ → Op
  renews : Op
  clears_lease : Op
  resumes : Op

unfoldable pub apply : Op → (now counter : ℕ) → RunStateData → Outcome
apply (moves t) = transition t
apply (steps s) = set_current_step s
apply clears_step = clear_current_step
apply (leases i t) = set_lease i t
apply renews = mark_lease_renewed
apply clears_lease = clear_lease
apply resumes = mark_resumed

unfoldable pub run : List (Op × ℕ) → ℕ → RunStateData → RunStateData × ℕ
run [] counter d = (d, counter)
run ((op, now) ∷ ops) counter d = let o = apply op now counter d in run ops o.counter o.run
