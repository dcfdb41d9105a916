-- ===== src/Host/Poll.antt =====
-- src/src/pipeline.rs: one step of a run, from the submission of its job to its summary. A time is in
-- nanoseconds; the clock and what the file system answers on the artifacts are parameters. What is
-- printed is left out.
use rch_mac.Base.{
  ℕ, ◌-◌, ◌*◌, ◌/◌, suc, zero, ltb, Bool, true, false, Option, none, some, if◌then◌else◌, Text,
  text, text_eq, List, [], ◌∷◌, ◌++◌, utf8, decimal, parse_usize, Result, ok, err, Value,
}
use rch_mac.Base.Max.{ℤ}
use rch_mac.Summary.{JobSummary, job_success, job_failure, job_cancelled}
use rch_mac.Summary.{FailureKind, FailureSubkind}
use rch_mac.Host.Unpack.{StepError, Files, unpack_content}
use rch_mac.Host.Client.{Transport, Session}
use rch_mac.Host.Payloads.{StatusResponse, TailResponse, LogEntry, CancelReason}
use rch_mac.Host.Operations.{submit, status, tail, cancel, fetch}
use rch_mac.Host.Streaming.{
  LogStreamer, new, process_tail_response, is_terminal_state, has_tail_feature,
}

-- The fields of `PipelineConfig` that a step reads; the interval is in milliseconds.
pub record StepConfig : Type 0 where
  pub overall_timeout_seconds : ℕ
  pub idle_timeout_seconds : ℕ
  pub tail_poll_interval : ℕ

-- `join("\\n")`
abbrev pub joined : List LogEntry → Text
joined [] = []
joined (e ∷ []) = e.line
joined (e ∷ f ∷ es) = e.line ++ (10 ∷ joined (f ∷ es))

abbrev pub chunk_of_entries : List LogEntry → Option (List ℕ)
chunk_of_entries [] = none
chunk_of_entries (e ∷ es) = some (utf8 (joined (e ∷ es)))

abbrev pub cursor_text : Option ℕ → Option Text
cursor_text none = none
cursor_text (some n) = some (decimal n)

abbrev cursor_number : Option Text → Option ℕ
cursor_number none = none
cursor_number (some c) = parse_usize c

unfoldable pub take_tail : (now : ℕ) → TailResponse → LogStreamer → LogStreamer
unfolding process_tail_response
take_tail now r s =
    (process_tail_response now (cursor_text (r.next_cursor)) (chunk_of_entries (r.entries)) [] s).0

abbrev pub job_key_of : Text → Text
job_key_of job_id = text "key-" ++ job_id

-- The summary that the last state of the job gives.
unfoldable pub state_summary : (run_id job_id action state : Text) → ℕ → JobSummary
state_summary run_id job_id action state ms =
    if text_eq state (text "SUCCEEDED")
    then job_success run_id job_id (job_key_of job_id) ms
    else if text_eq state (text "CANCELLED")
    then job_cancelled run_id job_id (job_key_of job_id) ms
    else job_failure run_id job_id (job_key_of job_id) FailureKind.xcodebuild none
        (action ++ text " failed") ms

unfoldable pub integrity_summary : (run_id job_id : Text) → ℕ → JobSummary
integrity_summary run_id job_id ms =
    job_failure run_id job_id (job_key_of job_id) FailureKind.artifacts
      (some FailureSubkind.integrity_mismatch) (text "Artifact integrity verification failed") ms

abbrev pub second : ℕ
second = 1000000000

-- `capabilities.map(has_tail_feature).unwrap_or(false)`
abbrev pub offers_tail : Option Value → Bool
offers_tail none = false
offers_tail (some c) = has_tail_feature c

abbrev pub streamer_at : StepConfig → (now : ℕ) → Bool → LogStreamer
streamer_at config now has_tail =
    new now
      (record {
        poll_interval = config.tail_poll_interval * 1000000;
        max_bytes_per_request = none;
        max_events_per_request = none;
      })
      has_tail

module _ {W : Type 0} (net : Transport W) (as_i64 : Value → Option ℤ) (clock : W → ℕ)
    (files : Files) (config : StepConfig) where
  -- The end of a step: its summary, with the integrity errors that it carries.
  abbrev pub Outcome : Type 0
  Outcome = Session W × Result (JobSummary × List Text) StepError

  -- The errors of the integrity of the artifacts, where there are any.
  unfoldable pub fetch_artifacts :
      Text → Session W → Session W × Result (Option (List Text)) StepError
  unfolding unpack_content
  fetch_artifacts job_id s =
      let out = fetch net as_i64 job_id s in
      (
        out.0,
        elim (out.1) [
          | err e ↦ err (StepError.rpc e)
          | ok r ↦ elim (r.content) [
            | none ↦ ok none
            | some content ↦ unpack_content files.digests (files.unpack job_id content)
          ]
        ],
      )

  -- The branch of a terminal status.
  unfoldable pub finish :
      (run_id job_id action : Text) → (start : ℕ) → StatusResponse → Session W → Outcome
  unfolding fetch_artifacts state_summary integrity_summary
  finish run_id job_id action start st s =
      let ms = (clock s.world - start) / 1000000 in
      let summary = state_summary run_id job_id action st.state ms in
      if st.artifacts_available
      then (let out = fetch_artifacts job_id s in
          (
            out.0,
            elim (out.1) [
              | err e ↦ err e
              | ok none ↦ ok (summary, [])
              | ok (some errors) ↦ ok (integrity_summary run_id job_id ms, errors)
            ],
          ))
      else (s, ok (summary, []))

  -- A timeout cancels the job; an error of the cancellation is what is answered then.
  unfoldable pub give_up : Text → CancelReason → Session W → Outcome
  give_up job_id reason s =
      let out = cancel net as_i64 job_id (some reason) s in
      (out.0, elim (out.1) [ err e ↦ err (StepError.rpc e) | ok r ↦ err StepError.timeout ])

  -- The next chunk of the log, where the worker has the feature. An error of the tail is dropped.
  unfoldable pub stream_logs : Bool → Text → Session W → LogStreamer → Session W × LogStreamer
  unfolding take_tail
  stream_logs false job_id s streamer = (s, streamer)
  stream_logs true job_id s streamer =
      let out =
        tail net as_i64 job_id (cursor_number (streamer.cursor))
          streamer.config.max_bytes_per_request s in
      (out.0, elim (out.1) [ err e ↦ streamer | ok r ↦ take_tail (clock out.0.world) r streamer ])

  abbrev pub idle : Session W → LogStreamer → Bool
  idle s streamer =
      ltb (config.idle_timeout_seconds * second) (clock s.world - streamer.last_activity)

  abbrev pub overdue : ℕ → Session W → Bool
  overdue start s = ltb config.overall_timeout_seconds ((clock s.world - start) / second)

  pub data Turn : Type 0 where
    done : Outcome → Turn
    again : Session W → LogStreamer → Turn

  -- The body of the loop, the pause at its end included.
  unfoldable pub turn :
      Bool → (run_id job_id action : Text) → (start : ℕ) → Session W → LogStreamer → Turn
  unfolding stream_logs give_up finish is_terminal_state
  turn has_tail run_id job_id action start s streamer =
      let asked = status net as_i64 job_id s in
      elim (asked.1) [
        | err e ↦ Turn.done (asked.0, err (StepError.rpc e))
        | ok st ↦
            if is_terminal_state st.state
            then Turn.done (finish run_id job_id action start st asked.0)
            else let told = stream_logs has_tail job_id asked.0 streamer in
              if idle told.0 told.1
              then Turn.done (give_up job_id CancelReason.timeout_idle told.0)
              else if overdue start told.0
              then Turn.done (give_up job_id CancelReason.timeout_overall told.0)
              else Turn.again
                  (record (told.0) { world = net.sleep config.tail_poll_interval told.0.world })
                  told.1
      ]

  -- The loop, for at most so many turns.
  unfoldable pub follow :
      ℕ
      → Bool
      → (run_id job_id action : Text) → (start : ℕ) → Session W
      → LogStreamer
      → Option Outcome
  unfolding turn
  follow zero has_tail run_id job_id action start s streamer = none
  follow (suc fuel) has_tail run_id job_id action start s streamer =
      elim (turn has_tail run_id job_id action start s streamer) [
        | Turn.done out ↦ some out
        | Turn.again t next ↦ follow fuel has_tail run_id job_id action start t next
      ]

  unfoldable pub execute_step :
      ℕ
      → (capabilities : Option Value) → (run_id job_id action sha : Text) → Session W
      → Option Outcome
  unfolding follow has_tail_feature new
  execute_step fuel capabilities run_id job_id action sha s =
      let submitted = submit net as_i64 job_id (job_key_of job_id) sha none s in
      elim (submitted.1) [
        | err e ↦ some (submitted.0, err (StepError.rpc e))
        | ok r ↦
            let start = clock submitted.0.world in
            follow fuel (offers_tail capabilities) run_id job_id action start submitted.0
              (streamer_at config start (offers_tail capabilities))
      ]
