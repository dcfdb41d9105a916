-- ===== src/Worker/Examples.antt =====
-- The theorems on the worker for one job, one lease and one source.
use rch_mac.Base.{
  ℕ, ◌+◌, ◌≤◌, ◌*◌, leb, Bool, true, false, Option, none, some, unwrap_or, if◌then◌else◌, Text,
  text, List, [], ◌∷◌, ◌++◌, get, take, drop, length, contains, decimal, Value, null, ◌≡◌, ◌↔◌, ◌⊎◌,
  refl, arith, Result, ok, err, bool, string, object, member, end, utf8,
}
use rch_mac.Base.Max.{pos}
use rch_mac.State.Job.{JobState, is_terminal}
use rch_mac.Worker.Protocol.{
  SubmitRequest, SubmitResponse, JobSpec, StatusResponse, TailRequest, TailResponse,
  UploadSourceRequest, UploadSourceResponse, RpcError, ErrorCode, code,
}
use rch_mac.Worker.State.{
  MockJob, MockState, Lease, active_lease_count, is_lease_valid, new, no_injection,
}
use rch_mac.Worker.Orphans.{cancel_orphaned_jobs, is_orphan}
use rch_mac.Worker.Handlers.{
  WorkerConfig, default, reserve, release, submit, cancel, status, check_source,
}
use rch_mac.Worker.Reads.{System, tail, upload_source}
use rch_mac.Worker.Rpc.{Readers, RpcRequest, serve, dispatch}
use rch_mac.Worker.Persistence.{Continues, Continues-refl}
use rch_mac.Worker.History.{serve_all, serve_all-capacity, serve_all-Continues, upload-check_source}
use rch_mac.Worker.Jobs.{started_job, final_state, state_after, submit-status, cancel-undone}
use rch_mac.Worker.Resubmit.{submit_twice}
use rch_mac.Worker.Logs.{chunk_of, tail_twice}
use rch_mac.Worker.Backstop.{cancel_orphaned_jobs-exact}
use rch_mac.Worker.Gate.{Speaks, serve-Speaks}

abbrev spec : JobSpec
spec = record {
  schema_version = pos 1;
  schema_id = text "rch-xcode/job@1";
  run_id = text "run";
  job_id = text "job";
  action = text "test";
  job_key_inputs = object (member (text "source_sha256") (string (text "abc")) end);
  job_key = text "key";
  effective_config = none;
  created_at = text "now";
}

-- The same job, without a source.
abbrev request : SubmitRequest
request = record { lease_id = none; job = record spec { job_key_inputs = null } }

abbrev leased : SubmitRequest
leased = record request { lease_id = some (text "lease-1") }

abbrev accepted : SubmitResponse
accepted = record { job_id = text "job"; state = JobState.queued }

abbrev upload : UploadSourceRequest
upload = record {
  source_sha256 = text "abc";
  stream = record {
    content_length = 10;
    content_sha256 = text "def";
    compression = text "none";
    format = text "tar";
  };
  resume = none;
}

abbrev uploaded : UploadSourceResponse
uploaded = record {
  accepted = true;
  source_sha256 = text "abc";
  upload_id = none;
  next_offset = none;
}

-- A state with one job, whose lease is not known any more.
abbrev holding : MockState
holding = record new { jobs = (text "job", started_job 0 leased new) ∷ [] }

abbrev readers : Readers
readers = record {
  reserve = λ p. some (record { ttl_seconds = none });
  release = λ p. some (record { lease_id = text "lease-00000001" });
  submit = λ p. some request;
  job = λ p. some (record { job_id = text "job" });
  tail = λ p. none;
  has_source = λ p. none;
  upload_source = λ p. some upload;
}

abbrev system : System
system = record {
  macos_version = text "15.3";
  macos_build = text "24D60";
  arch = text "arm64";
  disk_available_bytes = 1;
  disk_total_bytes = 2;
}

abbrev call : Text → RpcRequest
call op = record { protocol_version = pos 1; op = op; request_id = text "id"; payload = null }

abbrev calls : List (ℕ × Option RpcRequest)
calls =
    (0, some (call (text "reserve")))
    ∷ (5, some (call (text "reserve")))
    ∷ (5, some (call (text "submit")))
    ∷ (20, some (call (text "status")))
    ∷ (5, some (call (text "cancel")))
    ∷ []

serve_all-capacity_example :
    let (last, t) = serve_all readers system default 0 calls new in active_lease_count last t ≤ 1
unfolding active_lease_count rch_mac.Base.count_values
serve_all-capacity_example = serve_all-capacity readers system default 0 calls new (omega arith)

serve_all-Continues_example :
    let t = (serve_all readers system default 0 calls holding).1 in
    (later : MockJob) × (get (text "job") t.jobs ≡ some later)
    × Continues (started_job 0 leased new) later
unfolding get rch_mac.Base.text_eq
serve_all-Continues_example =
    serve_all-Continues readers system default 0 calls holding (text "job")
      (started_job 0 leased new) refl

upload-check_source_example :
    check_source spec
      (serve_all readers system default 3 calls (upload_source default 0 upload new).0).1
    ≡ none
unfolding upload_source rch_mac.Worker.Handlers.source_of rch_mac.Base.get_key
    rch_mac.Base.find_member rch_mac.Base.text_eq
upload-check_source_example =
    upload-check_source readers system default 0 3 upload calls new uploaded spec refl refl refl

submit-status_example :
    (a : StatusResponse) × ((status
        (0 + 50)
        (record { job_id = text "job" })
        (submit default 0 request new).0).1
      ≡ ok a)
    × (a.state ≡ state_after 50 (final_state new))
    × (a.job_key ≡ some (text "key"))
    × (a.artifacts_available ≡ is_terminal a.state)
unfolding submit get rch_mac.Base.get_key rch_mac.Base.count_values
submit-status_example = submit-status default 0 50 request new accepted refl refl

cancel-undone_example :
    let answer =
      cancel (0 + 20) (record { job_id = text "job" }) (submit default 0 request new).0 in
    (answer.1
      ≡ ok (record { job_id = text "job"; state = JobState.cancelled; acknowledged = true }))
    × (a : StatusResponse) × ((status (0 + 200) (record { job_id = text "job" }) answer.0).1 ≡ ok a)
    × (a.state ≡ final_state new)
unfolding submit get rch_mac.Base.get_key rch_mac.Base.count_values
cancel-undone_example =
    cancel-undone default 0 20 200 request new accepted refl refl (omega arith) (omega arith)

submit_twice_example :
    let t = (submit default 0 request new).0 in
    ((submit default 7 request t).0 ≡ t)
    × (((a : SubmitResponse) × ((submit default 7 request t).1 ≡ ok a) × (a.job_id ≡ text "job"))
        ↔ (text "key" ≡ text "key"))
unfolding submit get rch_mac.Base.get_key rch_mac.Base.count_values
submit_twice_example =
    submit_twice default 0 7 request request new accepted refl refl refl refl refl

abbrev job : MockJob
job = started_job 0 leased new

abbrev length_text : Text
length_text = decimal (length job.log_buffer)

-- The first answer holds the log, the second nothing more.
abbrev reading : TailRequest
reading = record { job_id = text "job"; cursor = none; max_bytes = none; max_events = none }

abbrev first_answer : TailResponse
first_answer = record {
  job_id = text "job";
  next_cursor = some length_text;
  log_chunk = some job.log_buffer;
  events = [];
}

abbrev second_answer : TailResponse
second_answer = record first_answer { log_chunk = none }

tail_twice_example : chunk_of first_answer ++ chunk_of second_answer ≡ drop 0 job.log_buffer
unfolding tail get rch_mac.Base.text_eq rch_mac.Worker.State.is_char_boundary
    rch_mac.Worker.Handlers.cursor_of utf8 rch_mac.Worker.Handlers.start_text rch_mac.Base.modify
    rch_mac.Base.parse_usize rch_mac.Base.reverse rch_mac.Base.low_digits rch_mac.Base.parse_digits
tail_twice_example =
    tail_twice 1 50 reading holding holding job job length_text first_answer second_answer refl refl
      (Continues-refl job) (omega arith) refl refl (omega arith) refl refl refl

cancel_orphaned_jobs-exact_example :
    let (t, ids) = cancel_orphaned_jobs 0 holding in
    (contains ids (text "job") ≡ is_orphan 0 holding job)
    × (is_orphan 0 holding job ≡ true
        → (later : MockJob) × (get (text "job") t.jobs ≡ some later)
          × (later.state ≡ JobState.cancelled))
    × (is_orphan 0 holding job ≡ false → get (text "job") t.jobs ≡ some job)
    × (t.leases ≡ holding.leases)
unfolding get rch_mac.Base.text_eq
cancel_orphaned_jobs-exact_example =
    cancel_orphaned_jobs-exact 0 holding (text "job") job (refl, tt) refl

serve-Speaks_example :
    let req = call (text "reserve") in
    (Speaks default req
      × (serve readers system default 0 (some req) new ≡ dispatch readers system default 0 req new))
    ⊎ ((¬ Speaks default req)
        × ((serve readers system default 0 (some req) new).0 ≡ new)
        × (e : RpcError) × ((serve readers system default 0 (some req) new).1.result ≡ err e)
        × (code e ≡ some ErrorCode.unsupported_protocol))
serve-Speaks_example = serve-Speaks readers system default 0 (call (text "reserve")) new
