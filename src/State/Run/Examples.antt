-- ===== src/State/Run/Examples.antt =====
-- The theorems on the record of src/state/run_state.rs at small histories.
use rch_mac.Base.{◌≡◌, ◌⊎◌, none, some, text, if◌then◌else◌}
use rch_mac.State.Counter.{next_seq}
use rch_mac.State.Run.{RunState, RunStateData, transition, is_terminal, invalid_transition}
use rch_mac.State.Run.Laws.{◌⟶◌, run_transition_cases}

abbrev a_run : RunStateData
a_run = record {
  schema_version = 1;
  schema_id = text "rch-xcode/run_state@1";
  run_id = text "run";
  state = RunState.running;
  created_at = 5;
  updated_at = 6;
  current_step = none;
  lease = none;
  resumed_at = none;
  seq = 1;
}

run_transition_cases_example :
    let o = transition RunState.queued 7 2 a_run in
    ((a_run.state ⟶ RunState.queued)
      × (o.error ≡ none)
      × (o.run ≡ record a_run {
        state = RunState.queued;
        updated_at = 7;
        current_step = if is_terminal RunState.queued then none else a_run.current_step;
        seq = (next_seq 2).0;
      })
      × (o.counter ≡ (next_seq 2).1))
    ⊎ ((¬ (a_run.state ⟶ RunState.queued))
        × (o.error ≡ some (invalid_transition a_run.state RunState.queued))
        × (o.run ≡ a_run)
        × (o.counter ≡ 2))
run_transition_cases_example = run_transition_cases RunState.queued 7 2 a_run
