-- ===== src/State/Job.antt =====
-- src/state/job_state.rs: the states of a job, the transitions and the job_state.json record.
pub mod Laws
pub mod Examples
use rch_mac.Base.{
  ℕ, Bool, true, false, Option, none, some, if◌then◌else◌, Text, text, ◌≡◌, List, [], ◌∷◌,
}
use rch_mac.State.Counter.{next_seq}

pub data JobState : Type 0 where
  queued running cancel_requested succeeded failed cancelled : JobState

abbrev pub is_terminal : JobState → Bool
is_terminal JobState.succeeded = true
is_terminal JobState.failed = true
is_terminal JobState.cancelled = true
is_terminal _ = false

unfoldable pub can_transition_to : JobState → JobState → Bool
can_transition_to JobState.queued JobState.running = true
can_transition_to JobState.queued JobState.cancelled = true
can_transition_to JobState.queued JobState.failed = true
can_transition_to JobState.running JobState.succeeded = true
can_transition_to JobState.running JobState.failed = true
can_transition_to JobState.running JobState.cancel_requested = true
can_transition_to JobState.running JobState.cancelled = true
can_transition_to JobState.cancel_requested JobState.cancelled = true
can_transition_to JobState.cancel_requested JobState.failed = true
can_transition_to JobState.cancel_requested JobState.succeeded = true
can_transition_to _ _ = false

abbrev pub is_cancelling : JobState → Bool
is_cancelling JobState.cancel_requested = true
is_cancelling JobState.cancelled = true
is_cancelling _ = false

abbrev pub schema_version : ℕ
schema_version = 1

abbrev pub schema_id : Text
schema_id = text "rch-xcode/job_state@1"

pub record JobStateData : Type 0 where
  pub schema_version : ℕ
  pub schema_id : Text
  pub run_id : Text
  pub job_id : Text
  pub job_key : Text
  pub state : JobState
  pub created_at : ℕ
  pub updated_at : ℕ
  pub seq : ℕ

-- The other two variants of the source's enum carry errors of files and of serde, and
-- `TerminalState` is never built.
pub data JobStateError : Type 0 where
  invalid_transition : (from to : JobState) → JobStateError
  terminal_state : JobState → JobStateError

-- What a method leaves behind: its error, the record, and the counter.
pub record Outcome : Type 0 where
  pub error : Option JobStateError
  pub job : JobStateData
  pub counter : ℕ

-- `JobStateData::new`
unfoldable pub new : (run_id job_id job_key : Text) (now counter : ℕ) → JobStateData × ℕ
new run_id job_id job_key now counter =
    let (seq, counter') = next_seq counter in
    (
      record {
        schema_version = schema_version;
        schema_id = schema_id;
        run_id = run_id;
        job_id = job_id;
        job_key = job_key;
        state = JobState.queued;
        created_at = now;
        updated_at = now;
        seq = seq;
      },
      counter',
    )

unfoldable pub transition : JobState → (now counter : ℕ) → JobStateData → Outcome
unfolding next_seq
transition new_state now counter d =
    if can_transition_to d.state new_state
    then record {
      error = none;
      job = record d { state = new_state; updated_at = now; seq = (next_seq counter).0 };
      counter = (next_seq counter).1;
    }
    else record { error = some (invalid_transition d.state new_state); job = d; counter = counter }

-- The named operations, each with the state that it asks for.
pub data Op : Type 0 where
  start succeed fail request_cancel cancel : Op

unfoldable pub target : Op → JobState
target start = JobState.running
target succeed = JobState.succeeded
target fail = JobState.failed
target request_cancel = JobState.cancel_requested
target cancel = JobState.cancelled

unfoldable pub apply : Op → (now counter : ℕ) → JobStateData → Outcome
unfolding target
apply op = transition (target op)

-- A history: each operation with the clock reading at it. Failed operations are no end.
unfoldable pub run : List (Op × ℕ) → ℕ → JobStateData → JobStateData × ℕ
run [] counter d = (d, counter)
run ((op, now) ∷ ops) counter d = let o = apply op now counter d in run ops o.counter o.job
