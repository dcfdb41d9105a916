-- ===== src/Worker/Protocol.antt =====
-- src/crates/rch-protocol/src: what hosts and workers exchange. The job states of ops/submit.rs are
-- those of State.Job. Responses are kept as values, before serde writes them.
use rch_mac.Base.{ℕ, Bool, Option, none, some, Text, List, Value}
use rch_mac.Base.Max.{ℤ}
use rch_mac.State.Job.{JobState}

-- ops/reserve.rs
pub record ReserveRequest : Type 0 where
  pub ttl_seconds : Option ℕ

pub record ReserveResponse : Type 0 where
  pub lease_id : Text
  pub ttl_seconds : ℕ

pub record ReleaseRequest : Type 0 where
  pub lease_id : Text

pub record ReleaseResponse : Type 0 where
  pub released : Bool

-- ops/submit.rs
pub record JobSpec : Type 0 where
  pub schema_version : ℤ
  pub schema_id : Text
  pub run_id : Text
  pub job_id : Text
  pub action : Text
  pub job_key_inputs : Value
  pub job_key : Text
  pub effective_config : Option Value
  pub created_at : Text

pub record SubmitRequest : Type 0 where
  pub lease_id : Option Text
  pub job : JobSpec

pub record SubmitResponse : Type 0 where
  pub job_id : Text
  pub state : JobState

-- The requests of ops/status.rs, ops/cancel.rs and ops/fetch.rs, which name a job.
pub record JobRequest : Type 0 where
  pub job_id : Text

pub record StatusResponse : Type 0 where
  pub job_id : Text
  pub state : JobState
  pub job_key : Option Text
  pub artifacts_available : Bool
  pub build_log_path : Option Text
  pub xcresult_path : Option Text

pub record CancelResponse : Type 0 where
  pub job_id : Text
  pub state : JobState
  pub acknowledged : Bool

-- ops/tail.rs; `log_chunk` holds bytes.
pub record TailRequest : Type 0 where
  pub job_id : Text
  pub cursor : Option Text
  pub max_bytes : Option ℕ
  pub max_events : Option ℕ

pub record TailResponse : Type 0 where
  pub job_id : Text
  pub next_cursor : Option Text
  pub log_chunk : Option (List ℕ)
  pub events : List Value

-- ops/source.rs
pub record HasSourceRequest : Type 0 where
  pub source_sha256 : Text

pub record HasSourceResponse : Type 0 where
  pub exists : Bool

pub record UploadStream : Type 0 where
  pub content_length : ℕ
  pub content_sha256 : Text
  pub compression : Text
  pub format : Text

pub record ResumeInfo : Type 0 where
  pub upload_id : Text
  pub offset : ℕ

pub record UploadSourceRequest : Type 0 where
  pub source_sha256 : Text
  pub stream : UploadStream
  pub resume : Option ResumeInfo

pub record UploadSourceResponse : Type 0 where
  pub accepted : Bool
  pub source_sha256 : Text
  pub upload_id : Option Text
  pub next_offset : Option ℕ

-- error.rs
pub data ErrorCode : Type 0 where
  invalid_request unsupported_protocol feature_missing busy : ErrorCode
  lease_expired source_missing artifacts_gone payload_too_large : ErrorCode
  unknown_operation job_not_found job_key_mismatch : ErrorCode

-- The errors with the data that they are made of, their messages left out. `panic` is no error of
-- the source: it stands for the panic of a slice that cuts a character.
pub data RpcError : Type 0 where
  invalid_request : RpcError
  unsupported_protocol : (version min max : ℤ) → RpcError
  unknown_operation : Text → RpcError
  busy : ℕ → RpcError
  lease_expired : Text → RpcError
  source_missing : Text → RpcError
  artifacts_gone : Text → RpcError
  payload_too_large : (size max : ℕ) → RpcError
  job_not_found : Text → RpcError
  job_key_mismatch : (job_id expected actual : Text) → RpcError
  panic : RpcError

unfoldable pub code : RpcError → Option ErrorCode
code RpcError.invalid_request = some ErrorCode.invalid_request
code (RpcError.unsupported_protocol v a b) = some ErrorCode.unsupported_protocol
code (RpcError.unknown_operation o) = some ErrorCode.unknown_operation
code (RpcError.busy s) = some ErrorCode.busy
code (RpcError.lease_expired l) = some ErrorCode.lease_expired
code (RpcError.source_missing s) = some ErrorCode.source_missing
code (RpcError.artifacts_gone j) = some ErrorCode.artifacts_gone
code (RpcError.payload_too_large n m) = some ErrorCode.payload_too_large
code (RpcError.job_not_found j) = some ErrorCode.job_not_found
code (RpcError.job_key_mismatch j e a) = some ErrorCode.job_key_mismatch
code RpcError.panic = none
