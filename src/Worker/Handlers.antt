-- ===== src/Worker/Handlers.antt =====
-- src/crates/rch-worker/src/handlers: one function per operation, on the request that serde has
-- read. Where reading fails, Worker.Rpc answers. `now` is the time of the request.
use rch_mac.Base.{
  ℕ, leb, Bool, true, false, ◌&&◌, ◌||◌, not, Option, none, some, unwrap_or, if◌then◌else◌, Text,
  text, text_eq, List, [], ◌∷◌, ◌++◌, Result, ok, err, get_key, as_str, parse_usize,
}
use rch_mac.Base.Max.{ℤ, pos}
use rch_mac.State.Job.{JobState, is_terminal}
use rch_mac.Worker.Protocol.{
  ReserveRequest, ReserveResponse, ReleaseRequest, ReleaseResponse, JobSpec, SubmitRequest,
  SubmitResponse, JobRequest, StatusResponse, CancelResponse, TailRequest, RpcError,
}
use rch_mac.Worker.State.{
  MockJob, MockState, create_lease, release_lease, is_lease_valid, active_lease_count,
  create_job_with_lease, get_job, set_job_state, append_job_log, schedule_transitions,
  process_transitions, running_job_count, has_source,
}

-- src/crates/rch-worker/src/config.rs
pub record WorkerConfig : Type 0 where
  pub protocol_min : ℤ
  pub protocol_max : ℤ
  pub max_concurrent_jobs : ℕ
  pub max_upload_bytes : ℕ
  pub features : List Text

abbrev pub default : WorkerConfig
default = record {
  protocol_min = pos 1;
  protocol_max = pos 1;
  max_concurrent_jobs = 1;
  max_upload_bytes = 1073741824;
  features =
      text "probe"
      ∷ text "has_source"
      ∷ text "upload_source"
      ∷ text "upload_resumable"
      ∷ text "tail"
      ∷ text "lease"
      ∷ [];
}

-- What a handler leaves behind, and its answer.
abbrev pub Reply : Type 0 → Type 0
Reply A = MockState × Result A RpcError

abbrev pub default_lease_ttl : ℕ
default_lease_ttl = 1800

unfoldable pub reserve : WorkerConfig → ℕ → ReserveRequest → MockState → Reply ReserveResponse
unfolding create_lease active_lease_count
reserve config now req s = elim (s.failure_injection.reserve_busy) [
  | some retry ↦ (s, err (RpcError.busy retry))
  | none ↦
      let ttl = unwrap_or req.ttl_seconds default_lease_ttl in
      let (s', lease) = create_lease now ttl s in
      if leb config.max_concurrent_jobs (active_lease_count now s)
      then (s, err (RpcError.busy 30))
      else (s', ok (record { lease_id = lease.lease_id; ttl_seconds = ttl }))
]

unfoldable pub release : ReleaseRequest → MockState → Reply ReleaseResponse
unfolding release_lease
release req s =
    let (s', was_valid) = release_lease req.lease_id s in (s', ok (record { released = was_valid }))

-- The checks of `submit` on the lease and on the source, with the error of the first that fails.
unfoldable pub check_lease : ℕ → Option Text → MockState → Option RpcError
check_lease now none s = none
check_lease now (some lease) s =
    if s.failure_injection.lease_expired || not (is_lease_valid now lease s)
    then some (RpcError.lease_expired lease)
    else none

unfoldable pub source_of : JobSpec → Option Text
source_of job = elim (get_key (text "source_sha256") job.job_key_inputs) [
  | none ↦ none
  | some v ↦ as_str v
]

unfoldable pub check_source : JobSpec → MockState → Option RpcError
unfolding source_of
check_source job s = elim (source_of job) [
  | none ↦ none
  | some sha ↦
      if s.failure_injection.source_missing || not (has_source sha s)
      then some (RpcError.source_missing sha)
      else none
]

unfoldable pub start_text : JobSpec → Text
start_text job =
    text "=== Job "
    ++ job.job_id
    ++ text " started ===\nrun_id: "
    ++ job.run_id
    ++ text "\njob_key: "
    ++ job.job_key
    ++ text "\naction: "
    ++ job.action
    ++ text "\n"

-- What `submit` does for a new job: the job, its schedule and the first lines of its log.
unfoldable pub start : ℕ → SubmitRequest → MockState → MockState
unfolding create_job_with_lease schedule_transitions append_job_log start_text
start now req s =
    let final = unwrap_or s.failure_injection.force_job_state JobState.succeeded in
    let (s', job) = create_job_with_lease now req.job req.lease_id s in
    append_job_log job.job_id (start_text req.job)
      (schedule_transitions now job.job_id ((JobState.running, 10) ∷ (final, 100) ∷ []) s')

-- What `submit` answers when there is a job with the id.
unfoldable pub resubmit : JobSpec → MockJob → Result SubmitResponse RpcError
resubmit job existing =
    if not (text_eq existing.job_key job.job_key)
    then err (RpcError.job_key_mismatch job.job_id existing.job_key job.job_key)
    else ok (record { job_id = existing.job_id; state = existing.state })

unfoldable pub submit_checked : WorkerConfig → ℕ → SubmitRequest → MockState → Reply SubmitResponse
unfolding start resubmit running_job_count
submit_checked config now req s = elim (get_job req.job.job_id s) [
  | some existing ↦ (s, resubmit req.job existing)
  | none ↦
      if leb config.max_concurrent_jobs (running_job_count s)
      then (s, err (RpcError.busy 30))
      else (start now req s, ok (record { job_id = req.job.job_id; state = JobState.queued }))
]

unfoldable pub submit : WorkerConfig → ℕ → SubmitRequest → MockState → Reply SubmitResponse
unfolding check_lease check_source submit_checked
submit config now req s = elim (check_lease now req.lease_id s) [
  | some e ↦ (s, err e)
  | none ↦ elim (check_source req.job s) [
    | some e ↦ (s, err e)
    | none ↦ submit_checked config now req s
  ]
]

-- The three statements of `cancel` for a job that waits or runs.
unfoldable pub stop : Text → MockState → MockState
unfolding set_job_state append_job_log
stop id s =
    append_job_log id (text "\n=== Job cancelled ===\n")
      (set_job_state id JobState.cancelled (set_job_state id JobState.cancel_requested s))

abbrev cancel_found : Text → MockJob → MockState → Reply CancelResponse
cancel_found id job s =
    let answer : JobState → Bool → Result CancelResponse RpcError =
      λ state ack. ok (record { job_id = id; state = state; acknowledged = ack }) in
    elim (job.state) [
      | JobState.queued ↦ (stop id s, answer JobState.cancelled true)
      | JobState.running ↦ (stop id s, answer JobState.cancelled true)
      | JobState.cancel_requested ↦ (s, answer JobState.cancel_requested true)
      | _ ↦ (s, answer job.state false)
    ]

unfoldable pub cancel : ℕ → JobRequest → MockState → Reply CancelResponse
unfolding process_transitions stop
cancel now req s =
    let s' = process_transitions now req.job_id s in
    elim (get_job req.job_id s') [
      | none ↦ (s', err (RpcError.job_not_found req.job_id))
      | some job ↦ cancel_found req.job_id job s'
    ]

abbrev pub status_of : MockJob → StatusResponse
status_of job = record {
  job_id = job.job_id;
  state = job.state;
  job_key = some job.job_key;
  artifacts_available = is_terminal job.state;
  build_log_path = if is_terminal job.state then some (job.job_id ++ text "/build.log") else none;
  xcresult_path =
      if is_terminal job.state && text_eq job.spec.action (text "test")
      then some (job.job_id ++ text "/result.xcresult")
      else none;
}

unfoldable pub status : ℕ → JobRequest → MockState → Reply StatusResponse
unfolding process_transitions
status now req s =
    let s' = process_transitions now req.job_id s in
    (
      s',
      elim (get_job req.job_id s') [
        | none ↦ err (RpcError.job_not_found req.job_id)
        | some job ↦ ok (status_of job)
      ],
    )

-- The cursor of a request, 0 when there is none or it is no number.
unfoldable pub cursor_of : TailRequest → ℕ
cursor_of req = elim (req.cursor) [ none ↦ 0 | some c ↦ unwrap_or (parse_usize c) 0 ]
