-- ===== src/Host/Envelope.antt =====
-- src/src/protocol/envelope.rs, and the errors of src/src/host/rpc.rs with their exit codes.
use rch_mac.Base.{
  ℕ, ◌%◌, ◌^◌, Bool, true, false, Option, none, some, unwrap_or, Text, text, text_eq, ◌++◌, Value,
  Members, find_member, as_u64, as_str, if◌then◌else◌,
}
use rch_mac.Base.Max.{ℤ}

pub data Operation : Type 0 where
  probe reserve release submit status tail cancel fetch has_source upload_source : Operation

abbrev pub accepts_version_zero : Operation → Bool
accepts_version_zero Operation.probe = true
accepts_version_zero _ = false

pub record RpcRequest : Type 0 where
  pub protocol_version : ℤ
  pub op : Operation
  pub request_id : Text
  pub payload : Value

pub record RpcErrorPayload : Type 0 where
  pub code : Text
  pub message : Text
  pub data_ : Option Members

pub record RpcResponse : Type 0 where
  pub protocol_version : ℤ
  pub request_id : Text
  pub is_ok : Bool
  pub payload : Option Value
  pub error : Option RpcErrorPayload

unfoldable pub success : ℤ → Text → Value → RpcResponse
success v id payload = record {
  protocol_version = v;
  request_id = id;
  is_ok = true;
  payload = some payload;
  error = none;
}

unfoldable pub error : ℤ → Text → RpcErrorPayload → RpcResponse
error v id e = record {
  protocol_version = v;
  request_id = id;
  is_ok = false;
  payload = none;
  error = some e;
}

-- `RpcErrorPayload::new`
abbrev pub new_error : Text → Text → RpcErrorPayload
new_error code message = record { code = code; message = message; data_ = none }

-- An error of the transport is the text that it shows.
pub data RpcError : Type 0 where
  transport protocol worker_incompatible : Text → RpcError
  worker_busy : ℕ → RpcError
  source_missing artifacts_gone lease_expired : Text → RpcError
  payload_too_large : ℕ → RpcError
  invalid_request : Text → RpcError
  version_negotiation_failed : (host_min host_max worker_min worker_max : ℤ) → RpcError
  max_retries_exceeded : RpcError

-- The discriminant of `failure_kind` is the exit code.
abbrev pub exit_code : RpcError → ℕ
exit_code (RpcError.transport e) = 20
exit_code (RpcError.protocol e) = 20
exit_code (RpcError.worker_incompatible e) = 91
exit_code (RpcError.version_negotiation_failed a b c d) = 91
exit_code (RpcError.worker_busy n) = 90
exit_code (RpcError.source_missing s) = 40
exit_code (RpcError.artifacts_gone j) = 70
exit_code (RpcError.lease_expired l) = 40
exit_code (RpcError.payload_too_large n) = 92
exit_code (RpcError.invalid_request m) = 40
exit_code RpcError.max_retries_exceeded = 90

-- A field of the details, where there are any.
abbrev pub detail : Text → RpcErrorPayload → Option Value
detail k e = elim (e.data_) [ none ↦ none | some d ↦ find_member k d ]

abbrev pub u64_of : Option Value → Option ℕ
u64_of v = elim v [ none ↦ none | some w ↦ as_u64 w ]

abbrev pub str_of : Option Value → Option Text
str_of v = elim v [ none ↦ none | some w ↦ as_str w ]

abbrev pub retry_after : RpcErrorPayload → ℕ
retry_after e = unwrap_or (u64_of (detail (text "retry_after_seconds") e)) 30

unfoldable pub parse_error : RpcErrorPayload → Text → RpcError
parse_error e context =
    if text_eq e.code (text "BUSY")
    then RpcError.worker_busy (retry_after e % 2 ^ 32)
    else if text_eq e.code (text "UNSUPPORTED_PROTOCOL")
    then RpcError.worker_incompatible e.message
    else if text_eq e.code (text "FEATURE_MISSING")
    then RpcError.worker_incompatible e.message
    else if text_eq e.code (text "SOURCE_MISSING")
    then RpcError.source_missing
        (unwrap_or (str_of (detail (text "source_sha256") e)) (text "unknown"))
    else if text_eq e.code (text "ARTIFACTS_GONE")
    then RpcError.artifacts_gone context
    else if text_eq e.code (text "LEASE_EXPIRED")
    then RpcError.lease_expired context
    else if text_eq e.code (text "PAYLOAD_TOO_LARGE")
    then RpcError.payload_too_large (unwrap_or (u64_of (detail (text "max_bytes") e)) 0)
    else if text_eq e.code (text "INVALID_REQUEST")
    then RpcError.invalid_request e.message
    else RpcError.protocol (e.code ++ text ": " ++ e.message)
