-- ===== src/Worker/Reads.antt =====
-- src/crates/rch-worker/src/handlers: the operations that read logs and artifacts, those of the
-- source store, and the probe.
use rch_mac.Base.{
  ℕ, ◌%◌, ◌^◌, ltb, Bool, true, ◌&&◌, not, Option, none, some, if◌then◌else◌, Text, List, [], take,
  length, is_empty, ◌==◌, Result, ok, err, decimal,
}
use rch_mac.Base.Max.{ℤ}
use rch_mac.State.Job.{JobState, is_terminal}
use rch_mac.Worker.Protocol.{
  JobRequest, TailRequest, TailResponse, HasSourceRequest, HasSourceResponse, UploadSourceRequest,
  UploadSourceResponse, RpcError,
}
use rch_mac.Worker.State.{
  MockJob, MockState, get_job, get_job_log, is_char_boundary, process_transitions,
  running_job_count, has_source, add_source,
}
use rch_mac.Worker.Handlers.{WorkerConfig, Reply, cursor_of}

-- The slice to at most `max_bytes`, which panics inside a character.
unfoldable pub limit : Option ℕ → List ℕ → Option (List ℕ)
limit none chunk = some chunk
limit (some max) chunk =
    if ltb max (length chunk)
    then if is_char_boundary max chunk then some (take max chunk) else none
    else some chunk

unfoldable pub next_cursor : JobState → ℕ → ℕ → Option Text
next_cursor state cursor new_cursor =
    if is_terminal state && new_cursor == cursor then none else some (decimal new_cursor)

abbrev tail_found : TailRequest → MockJob → Option (List ℕ) → ℕ → Result TailResponse RpcError
tail_found req job none new_cursor = err RpcError.panic
tail_found req job (some chunk) new_cursor = elim (limit req.max_bytes chunk) [
  | none ↦ err RpcError.panic
  | some log_chunk ↦ ok (record {
    job_id = req.job_id;
    next_cursor = next_cursor job.state (cursor_of req) new_cursor;
    log_chunk = if is_empty log_chunk then none else some log_chunk;
    events = [];
  })
]

unfoldable pub tail : ℕ → TailRequest → MockState → Reply TailResponse
unfolding process_transitions get_job_log limit next_cursor
tail now req s =
    let s' = process_transitions now req.job_id s in
    (
      s',
      elim (get_job req.job_id s') [
        | none ↦ err (RpcError.job_not_found req.job_id)
        | some job ↦ elim (get_job_log req.job_id (cursor_of req) s') [
          | none ↦ err (RpcError.job_not_found req.job_id)
          | some log ↦ tail_found req job log.0 log.1
        ]
      ],
    )

-- The entries of the manifest are fixed texts, left out.
pub record FetchResponse : Type 0 where
  pub job_id : Text
  pub job_key : Text
  pub run_id : Text
  pub artifacts_available : Bool

abbrev fetch_found : Text → MockJob → Result FetchResponse RpcError
fetch_found id job =
    if not (is_terminal job.state) then err RpcError.invalid_request else elim (job.state) [
      | JobState.failed ↦ err (RpcError.artifacts_gone id)
      | JobState.cancelled ↦ err (RpcError.artifacts_gone id)
      | _ ↦ ok (record {
        job_id = job.job_id;
        job_key = job.job_key;
        run_id = job.run_id;
        artifacts_available = true;
      })
    ]

unfoldable pub fetch : ℕ → JobRequest → MockState → Reply FetchResponse
unfolding process_transitions
fetch now req s =
    let s' = process_transitions now req.job_id s in
    (
      s',
      elim (get_job req.job_id s') [
        | none ↦ err (RpcError.job_not_found req.job_id)
        | some job ↦ fetch_found req.job_id job
      ],
    )

unfoldable pub find_source : HasSourceRequest → MockState → Reply HasSourceResponse
unfolding has_source
find_source req s = (s, ok (record { exists = has_source req.source_sha256 s }))

unfoldable pub upload_source :
    WorkerConfig → ℕ → UploadSourceRequest → MockState → Reply UploadSourceResponse
unfolding has_source add_source
upload_source config now req s =
    let size = req.stream.content_length in
    let sha = req.source_sha256 in
    if ltb config.max_upload_bytes size
    then (s, err (RpcError.payload_too_large size config.max_upload_bytes))
    else (
      (if has_source sha s then s else add_source now sha req.stream.content_sha256 size s),
      ok (record { accepted = true; source_sha256 = sha; upload_id = none; next_offset = none }),
    )

-- What the commands of a probe print: the system, which the worker passes on.
pub record System : Type 0 where
  pub macos_version : Text
  pub macos_build : Text
  pub arch : Text
  pub disk_available_bytes : ℕ
  pub disk_total_bytes : ℕ

pub record ProbeResponse : Type 0 where
  pub protocol_min : ℤ
  pub protocol_max : ℤ
  pub features : List Text
  pub system : System
  pub max_concurrent_jobs : ℕ
  pub current_jobs : ℕ
  pub max_upload_bytes : ℕ

unfoldable pub probe : System → WorkerConfig → MockState → Reply ProbeResponse
unfolding running_job_count
probe system config s = (
  s,
  ok (record {
    protocol_min = config.protocol_min;
    protocol_max = config.protocol_max;
    features = config.features;
    system = system;
    max_concurrent_jobs = config.max_concurrent_jobs;
    current_jobs = running_job_count s % 2 ^ 32;
    max_upload_bytes = config.max_upload_bytes;
  }),
)
