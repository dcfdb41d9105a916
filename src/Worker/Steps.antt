-- ===== src/Worker/Steps.antt =====
-- What a request can do to the worker's state, as a step relation, and the histories of a worker:
-- requests and sweeps in the order of time.
use rch_mac.Base.{
  ℕ, ◌<◌, leb, ltb, Bool, true, false, Option, none, some, unwrap_or, Text, Value, Option-cases,
  Bool-cases, inl, inr, ◌≡◌, sym, subst, arith,
}
use rch_mac.State.Job.{JobState}
use rch_mac.Worker.Protocol.{SubmitRequest, JobRequest, ReserveRequest, UploadSourceRequest}
use rch_mac.Worker.State.{
  MockJob, MockState, running_job_count, create_lease, release_lease, active_lease_count, get_job,
  process_transitions, has_source, add_source, cleanup_expired_leases, update_job,
}
use rch_mac.Worker.Orphans.{backstop}
use rch_mac.Worker.Handlers.{WorkerConfig, check_lease, check_source, start, stop, submit_checked}
use rch_mac.Worker.Handlers as Handlers
use rch_mac.Worker.Reads.{System}
use rch_mac.Worker.Reads as Reads
use rch_mac.Worker.Rpc.{Readers, RpcRequest, Op, handle, serve, validate_protocol_version, op_of}

abbrev pub is_open : JobState → Bool
is_open JobState.queued = true
is_open JobState.running = true
is_open _ = false

-- One change of the state at a time.
pub data Step (config : WorkerConfig) (now : ℕ) : MockState → MockState → Type 0 where
  reserved :
      (s : MockState) (ttl : ℕ)
      → active_lease_count now s < config.max_concurrent_jobs
      → Step config now s (create_lease now ttl s).0
  released : (s : MockState) (id : Text) → Step config now s (release_lease id s).0
  started :
      (s : MockState) (req : SubmitRequest)
      → check_lease now req.lease_id s ≡ none
      → check_source req.job s ≡ none
      → get_job req.job.job_id s ≡ none
      → Step config now s (start now req s)
  processed : (s : MockState) (id : Text) → Step config now s (process_transitions now id s)
  stopped :
      (s : MockState) (id : Text) (job : MockJob)
      → get_job id s ≡ some job
      → is_open job.state ≡ true
      → Step config now s (stop id s)
  stored :
      (s : MockState) (sha content : Text) (size : ℕ)
      → has_source sha s ≡ false
      → Step config now s (add_source now sha content size s)
  swept : (s : MockState) → Step config now s (cleanup_expired_leases now s).0
  backstopped : (s : MockState) (id : Text) → Step config now s (update_job id (backstop id) s)

-- The changes at one time.
pub data Changes (config : WorkerConfig) (now : ℕ) (s : MockState) : MockState → Type 0 where
  here : Changes config now s s
  next : {t u : MockState} → Changes config now s t → Step config now t u → Changes config now s u

module _ (config : WorkerConfig) (now : ℕ) where
  one : {s t : MockState} → Step config now s t → Changes config now s t
  one st = next here st

  -- Changes to a state that is equal to another.
  to : {s t u : MockState} → u ≡ t → Changes config now s t → Changes config now s u
  to {s} e r = subst (Changes config now s) (sym e) r

  reserve-Changes :
      (req : ReserveRequest) (s : MockState)
      → Changes config now s (Handlers.reserve config now req s).0
  unfolding Handlers.reserve
  reserve-Changes req s = elim (Option-cases s.failure_injection.reserve_busy) [
    | inr (r, e) ↦ to (ground arith) here
    | inl e ↦ elim (Bool-cases (leb config.max_concurrent_jobs (active_lease_count now s))) [
      | inl f ↦ to (ground arith) here
      | inr f ↦
          to (ground arith)
            (one (reserved s (unwrap_or req.ttl_seconds Handlers.default_lease_ttl) (ground arith)))
    ]
  ]

  submit-Changes :
      (req : SubmitRequest) (s : MockState)
      → Changes config now s (Handlers.submit config now req s).0
  unfolding Handlers.submit Handlers.submit_checked
  submit-Changes req s = elim (Option-cases (check_lease now req.lease_id s)) [
    | inr (r, e) ↦ to (ground arith) here
    | inl e ↦ elim (Option-cases (check_source req.job s)) [
      | inr (r, f) ↦ to (ground arith) here
      | inl f ↦ elim (Option-cases (get_job req.job.job_id s)) [
        | inr (r, g) ↦ to (ground arith) here
        | inl g ↦ elim (Bool-cases (leb config.max_concurrent_jobs (running_job_count s))) [
          | inl h ↦ to (ground arith) here
          | inr h ↦ to (ground arith) (one (started s req e f g))
        ]
      ]
    ]
  ]

  cancel-Changes :
      (req : JobRequest) (s : MockState) → Changes config now s (Handlers.cancel now req s).0
  unfolding Handlers.cancel
  cancel-Changes req s =
      let s' = process_transitions now req.job_id s in
      let r = one (processed s req.job_id) in
      elim (Option-cases (get_job req.job_id s')) [
        | inl e ↦ to (ground arith) r
        | inr (job, e) ↦ elim (Bool-cases (is_open job.state)) [
          | inl o ↦ to (ground arith) (next r (stopped s' req.job_id job e o))
          | inr o ↦ to (ground arith) r
        ]
      ]

  upload-Changes :
      (req : UploadSourceRequest) (s : MockState)
      → Changes config now s (Reads.upload_source config now req s).0
  unfolding Reads.upload_source
  upload-Changes req s = elim (Bool-cases (ltb config.max_upload_bytes req.stream.content_length)) [
    | inl e ↦ to (ground arith) here
    | inr e ↦ elim (Bool-cases (has_source req.source_sha256 s)) [
      | inl f ↦ to (ground arith) here
      | inr f ↦
          to (ground arith)
            (one (stored s req.source_sha256 req.stream.content_sha256 req.stream.content_length f))
    ]
  ]

  -- The handlers that only look at a job bring its state up to date.
  module _ (readers : Readers) (system : System) where
    handle-Changes :
        (op : Op) (name : Text) (p : Value) (s : MockState)
        → Changes config now s (handle readers system config now op name p s).0
    unfolding handle Reads.probe Handlers.release Handlers.status Reads.tail Reads.fetch
        Reads.find_source
    handle-Changes Op.probe name p s = here
    handle-Changes Op.reserve name p s = reserve-Changes _ s
    handle-Changes Op.release name p s = elim (Option-cases (readers.release p)) [
      | inl e ↦ to (ground arith) here
      | inr (req, e) ↦ to (ground arith) (one (released s req.lease_id))
    ]
    handle-Changes Op.submit name p s = elim (Option-cases (readers.submit p)) [
      | inl e ↦ to (ground arith) here
      | inr (req, e) ↦ to (ground arith) (submit-Changes req s)
    ]
    handle-Changes Op.status name p s = elim (Option-cases (readers.job p)) [
      | inl e ↦ to (ground arith) here
      | inr (req, e) ↦ to (ground arith) (one (processed s req.job_id))
    ]
    handle-Changes Op.tail name p s = elim (Option-cases (readers.tail p)) [
      | inl e ↦ to (ground arith) here
      | inr (req, e) ↦ to (ground arith) (one (processed s req.job_id))
    ]
    handle-Changes Op.cancel name p s = elim (Option-cases (readers.job p)) [
      | inl e ↦ to (ground arith) here
      | inr (req, e) ↦ to (ground arith) (cancel-Changes req s)
    ]
    handle-Changes Op.has_source name p s = elim (Option-cases (readers.has_source p)) [
      | inl e ↦ to (ground arith) here
      | inr (req, e) ↦ to (ground arith) here
    ]
    handle-Changes Op.upload_source name p s = elim (Option-cases (readers.upload_source p)) [
      | inl e ↦ to (ground arith) here
      | inr (req, e) ↦ to (ground arith) (upload-Changes req s)
    ]
    handle-Changes Op.fetch name p s = elim (Option-cases (readers.job p)) [
      | inl e ↦ to (ground arith) here
      | inr (req, e) ↦ to (ground arith) (one (processed s req.job_id))
    ]
    handle-Changes Op.other name p s = here

    pub serve-Changes :
        (req : Option RpcRequest) (s : MockState)
        → Changes config now s (serve readers system config now req s).0
    unfolding serve
    serve-Changes none s = to (ground arith) here
    serve-Changes (some req) s = elim (Option-cases (validate_protocol_version config req)) [
      | inr (e, f) ↦ to (ground arith) here
      | inl e ↦ to (ground arith) (handle-Changes (op_of req.op) req.op req.payload s)
    ]
