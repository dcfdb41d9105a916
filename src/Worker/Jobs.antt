-- ===== src/Worker/Jobs.antt =====
-- The life of a job on the worker, from src/crates/rch-worker/src/handlers: what `submit` starts, what
-- later requests see of it, and what a second submission answers.
use rch_mac.Base.{
  ℕ, ◌+◌, ◌≤◌, ◌<◌, ltb, true, none, some, unwrap_or, if◌then◌else◌, Text, text, text_eq,
  text_eq_iff, [], ◌∷◌, ◌++◌, get, get-insert, get-modify, ◌≡◌, refl, ◌∙◌, ap, arith, ok, utf8,
}
use rch_mac.Worker.Steps.{is_open}
use rch_mac.State.Job.{JobState, is_terminal}
use rch_mac.Worker.Protocol.{SubmitRequest, SubmitResponse, StatusResponse}
use rch_mac.Worker.State.{
  MockJob, MockState, create_job_with_lease, schedule_transitions, append_job_log, set_job_state,
  process_transitions, process_job, due, get_job,
}
use rch_mac.Worker.Handlers.{
  WorkerConfig, submit, submit_checked, start, start_text, stop, status, status_of, cancel,
}

-- The state that an injection asks for, or success.
abbrev pub final_state : MockState → JobState
final_state s = unwrap_or s.failure_injection.force_job_state JobState.succeeded

-- The record of a job that `submit` has just started.
abbrev pub started_job : ℕ → SubmitRequest → MockState → MockJob
started_job now req s = record {
  job_id = req.job.job_id;
  job_key = req.job.job_key;
  run_id = req.job.run_id;
  state = JobState.queued;
  spec = req.job;
  log_buffer = [] ++ utf8 (start_text req.job);
  log_cursor = 0;
  created_at = now;
  transitions =
      record { to_state = JobState.running; at = now + 10 }
      ∷ record { to_state = final_state s; at = now + 100 }
      ∷ [];
  lease_id = req.lease_id;
}

pub get-start :
    (now : ℕ) (req : SubmitRequest) (s : MockState)
    → get req.job.job_id (start now req s).jobs ≡ some (started_job now req s)
unfolding start create_job_with_lease schedule_transitions append_job_log
get-start now req s =
    let id = req.job.job_id in
    let q : text_eq id id ≡ true = (text_eq_iff id id).1 refl in
    rw (get-modify id id, get-modify id id, get-insert id id, q) refl

-- A submission of an unknown job that is accepted has started it.
pub submit_new :
    (config : WorkerConfig) (now : ℕ) (req : SubmitRequest) (s : MockState) (r : SubmitResponse)
    → get_job req.job.job_id s ≡ none
    → (submit config now req s).1 ≡ ok r
    → (submit config now req s).0 ≡ start now req s
unfolding submit submit_checked
submit_new config now req s r n h = ground arith

-- The state of a job a time after it was started, as long as nothing else happens to it.
abbrev pub state_after : ℕ → JobState → JobState
state_after d final =
    if ltb d 10 then JobState.queued else if ltb d 100 then JobState.running else final

process-started_job :
    (now d : ℕ) (req : SubmitRequest) (s : MockState)
    → let job = process_job (now + d) (started_job now req s) in
      (job.state ≡ state_after d (final_state s)) × (job.job_key ≡ req.job.job_key)
unfolding process_job due
process-started_job now d req s = (ground arith, refl)

pub get-process :
    (now : ℕ) (id : Text) (s : MockState) (job : MockJob)
    → get id s.jobs ≡ some job
    → get id (process_transitions now id s).jobs ≡ some (process_job now job)
unfolding process_transitions
get-process now id s job h =
    ground (arith, get-modify id id (process_job now) s.jobs, text_eq_iff id id)

-- What `status` answers on a job that is there.
status-get :
    (now : ℕ) (id : Text) (s : MockState) (job : MockJob)
    → get id s.jobs ≡ some job
    → (status now (record { job_id = id }) s).1 ≡ ok (status_of (process_job now job))
unfolding status
status-get now id s job h = let there = get-process now id s job h in ground arith

pub submit-get :
    (config : WorkerConfig) (now : ℕ) (req : SubmitRequest) (s : MockState) (r : SubmitResponse)
    → get_job req.job.job_id s ≡ none
    → (submit config now req s).1 ≡ ok r
    → get req.job.job_id (submit config now req s).0.jobs ≡ some (started_job now req s)
submit-get config now req s r n h =
    ap (λ (u : MockState). get req.job.job_id u.jobs) (submit_new config now req s r n h)
    ∙ get-start now req s

-- A job that is accepted is reported as waiting for 10 ms, then as running until 100 ms after the
-- submission, and then in its final state, under the key it was submitted with; artifacts are
-- announced exactly when the state reported is terminal.
pub submit-status :
    (config : WorkerConfig) (now d : ℕ) (req : SubmitRequest) (s : MockState) (r : SubmitResponse)
    → get_job req.job.job_id s ≡ none
    → (submit config now req s).1 ≡ ok r
    → (a : StatusResponse) × ((status
          (now + d)
          (record { job_id = req.job.job_id })
          (submit config now req s).0).1
        ≡ ok a)
      × (a.state ≡ state_after d (final_state s))
      × (a.job_key ≡ some req.job.job_key)
      × (a.artifacts_available ≡ is_terminal a.state)
unfolding status
submit-status config now d req s r n h =
    let found = submit-get config now req s r n h in
    let (state, key) = process-started_job now d req s in
    (
      status_of (process_job (now + d) (started_job now req s)),
      status-get (now + d) req.job.job_id (submit config now req s).0 (started_job now req s) found,
      state,
      ap some key,
      refl,
    )

-- What a cancellation leaves of a job that waits or runs.
abbrev stopped_job : MockJob → MockJob
stopped_job job = record job {
  state = JobState.cancelled;
  log_buffer = job.log_buffer ++ utf8 (text "\n=== Job cancelled ===\n");
}

get-stop :
    (id : Text) (s : MockState) (job : MockJob)
    → get id s.jobs ≡ some job
    → get id (stop id s).jobs ≡ some (stopped_job job)
unfolding stop set_job_state append_job_log
get-stop id s job h =
    let q : text_eq id id ≡ true = (text_eq_iff id id).1 refl in
    rw (get-modify id id, get-modify id id, get-modify id id, q, h) refl

cancel-get :
    (now : ℕ) (id : Text) (s : MockState) (job : MockJob)
    → get id s.jobs ≡ some job
    → is_open (process_job now job).state ≡ true
    → let answer = cancel now (record { job_id = id }) s in
      (answer.1 ≡ ok (record { job_id = id; state = JobState.cancelled; acknowledged = true }))
      × (get id answer.0.jobs ≡ some (stopped_job (process_job now job)))
unfolding cancel
cancel-get now id s job h o =
    let there = get-process now id s job h in
    let gone = get-stop id (process_transitions now id s) (process_job now job) there in
    (ground arith, ground arith)

stopped-started_job :
    (now c d : ℕ) (req : SubmitRequest) (s : MockState)
    → c < 100
    → 100 ≤ d
    → (process_job (now + d) (stopped_job (process_job (now + c) (started_job now req s)))).state
      ≡ final_state s
unfolding process_job due
stopped-started_job now c d req s h k = ground arith

-- A job cancelled within 100 ms of its submission is acknowledged as cancelled; the schedule of the
-- submission stays, though, and a request 100 ms after the submission finds the job in the state it
-- would have reached.
pub cancel-undone :
    (config : WorkerConfig) (now c d : ℕ) (req : SubmitRequest) (s : MockState) (r : SubmitResponse)
    → get_job req.job.job_id s ≡ none
    → (submit config now req s).1 ≡ ok r
    → c < 100
    → 100 ≤ d
    → let id = req.job.job_id in
      let answer = cancel (now + c) (record { job_id = id }) (submit config now req s).0 in
      (answer.1 ≡ ok (record { job_id = id; state = JobState.cancelled; acknowledged = true }))
      × (a : StatusResponse) × ((status (now + d) (record { job_id = id }) answer.0).1 ≡ ok a)
      × (a.state ≡ final_state s)
cancel-undone config now c d req s r n h b k =
    let id = req.job.job_id in
    let found = submit-get config now req s r n h in
    let (state, key) = process-started_job now c req s in
    let first = started_job now req s in
    let t = (submit config now req s).0 in
    let (ack, left) = cancel-get (now + c) id t first found (ground arith) in
    let last = stopped_job (process_job (now + c) first) in
    let u = (cancel (now + c) (record { job_id = id }) t).0 in
    (
      ack,
      status_of (process_job (now + d) last),
      status-get (now + d) id u last left,
      stopped-started_job now c d req s b k,
    )
