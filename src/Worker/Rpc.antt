-- ===== src/Worker/Rpc.antt =====
-- src/crates/rch-worker/src/rpc.rs: the check of the protocol version and the dispatch. The readers
-- that serde derives for the payloads are parameters.
use rch_mac.Base.{
  ℕ, Ordering, Bool, Option, none, some, unwrap_or, if◌then◌else◌, Text, text, text_eq, Result, ok,
  err, Value, [],
}
use rch_mac.Base.Max.{ℤ, pos, compare_ℤ}
use rch_mac.Worker.Protocol.{
  ReserveRequest, ReserveResponse, ReleaseRequest, ReleaseResponse, SubmitRequest, SubmitResponse,
  JobRequest, StatusResponse, CancelResponse, TailRequest, TailResponse, HasSourceRequest,
  HasSourceResponse, UploadSourceRequest, UploadSourceResponse, RpcError,
}
use rch_mac.Worker.State.{MockState}
use rch_mac.Worker.Handlers.{WorkerConfig, Reply}
use rch_mac.Worker.Handlers as Handlers
use rch_mac.Worker.Reads.{FetchResponse, ProbeResponse, System}
use rch_mac.Worker.Reads as Reads

-- `serde_json::from_value` at each type of request.
pub record Readers : Type 0 where
  pub reserve : Value → Option ReserveRequest
  pub release : Value → Option ReleaseRequest
  pub submit : Value → Option SubmitRequest
  pub job : Value → Option JobRequest
  pub tail : Value → Option TailRequest
  pub has_source : Value → Option HasSourceRequest
  pub upload_source : Value → Option UploadSourceRequest

pub record RpcRequest : Type 0 where
  pub protocol_version : ℤ
  pub op : Text
  pub request_id : Text
  pub payload : Value

pub data Payload : Type 0 where
  probed : ProbeResponse → Payload
  reserved : ReserveResponse → Payload
  released : ReleaseResponse → Payload
  submitted : SubmitResponse → Payload
  status : StatusResponse → Payload
  tail : TailResponse → Payload
  cancelled : CancelResponse → Payload
  source : HasSourceResponse → Payload
  uploaded : UploadSourceResponse → Payload
  fetched : FetchResponse → Payload

-- `ok` with its payload, or the error.
pub record RpcResponse : Type 0 where
  pub protocol_version : ℤ
  pub request_id : Text
  pub result : Result Payload RpcError

abbrev pub Answer : Type 0
Answer = MockState × Result Payload RpcError

abbrev wrap : {A : Type 0} → (A → Payload) → Reply A → Answer
wrap f r = (r.0, elim (r.1) [ ok a ↦ ok (f a) | err e ↦ err e ])

-- A handler on the request that serde reads from the payload.
abbrev on :
    {A B : Type 0} → (B → Payload) → Option A → (A → MockState → Reply B) → MockState → Answer
on f none h s = (s, err RpcError.invalid_request)
on f (some req) h s = wrap f (h req s)

pub data Op : Type 0 where
  probe reserve release submit status tail cancel has_source upload_source fetch other : Op

-- The operation that a name stands for: the names of src/crates/rch-protocol/src/ops.rs.
unfoldable pub op_of : Text → Op
op_of op =
    if text_eq op (text "probe")
    then Op.probe
    else if text_eq op (text "reserve")
    then Op.reserve
    else if text_eq op (text "release")
    then Op.release
    else if text_eq op (text "submit")
    then Op.submit
    else if text_eq op (text "status")
    then Op.status
    else if text_eq op (text "tail")
    then Op.tail
    else if text_eq op (text "cancel")
    then Op.cancel
    else if text_eq op (text "has_source")
    then Op.has_source
    else if text_eq op (text "upload_source")
    then Op.upload_source
    else if text_eq op (text "fetch")
    then Op.fetch
    else Op.other

abbrev pub is_probe : Text → Bool
is_probe op = text_eq op (text "probe")

unfoldable pub validate_protocol_version : WorkerConfig → RpcRequest → Option RpcError
validate_protocol_version config req =
    let v = req.protocol_version in
    let refused = some (RpcError.unsupported_protocol v config.protocol_min config.protocol_max) in
    if is_probe req.op
    then elim (compare_ℤ v (pos 0)) [
      | Ordering.eq ↦ none
      | _ ↦ some (RpcError.unsupported_protocol v (pos 0) (pos 0))
    ]
    else elim (compare_ℤ v (pos 0)) [
      | Ordering.eq ↦ refused
      | _ ↦ elim (compare_ℤ v config.protocol_min) [
        | Ordering.lt ↦ refused
        | _ ↦ elim (compare_ℤ v config.protocol_max) [ Ordering.gt ↦ refused | _ ↦ none ]
      ]
    ]

module _ (readers : Readers) (system : System) (config : WorkerConfig) where
  unfoldable pub handle : ℕ → Op → Text → Value → MockState → Answer
  handle now Op.probe op p s = wrap Payload.probed (Reads.probe system config s)
  handle now Op.reserve op p s = wrap Payload.reserved (
      Handlers.reserve config now (unwrap_or (readers.reserve p) (record { ttl_seconds = none })) s)
  handle now Op.release op p s = on Payload.released (readers.release p) Handlers.release s
  handle now Op.submit op p s =
      on Payload.submitted (readers.submit p) (Handlers.submit config now) s
  handle now Op.status op p s = on Payload.status (readers.job p) (Handlers.status now) s
  handle now Op.tail op p s = on Payload.tail (readers.tail p) (Reads.tail now) s
  handle now Op.cancel op p s = on Payload.cancelled (readers.job p) (Handlers.cancel now) s
  handle now Op.has_source op p s = on Payload.source (readers.has_source p) Reads.find_source s
  handle now Op.upload_source op p s =
      on Payload.uploaded (readers.upload_source p) (Reads.upload_source config now) s
  handle now Op.fetch op p s = on Payload.fetched (readers.job p) (Reads.fetch now) s
  handle now Op.other op p s = (s, err (RpcError.unknown_operation op))

  unfoldable pub dispatch : ℕ → RpcRequest → MockState → MockState × RpcResponse
  unfolding handle
  dispatch now req s =
      let answer = handle now (op_of req.op) req.op req.payload s in
      (
        answer.0,
        record {
          protocol_version = if is_probe req.op then pos 0 else req.protocol_version;
          request_id = req.request_id;
          result = answer.1;
        },
      )

  -- `run_with_io` on the request that is read, if it is one.
  unfoldable pub serve : ℕ → Option RpcRequest → MockState → MockState × RpcResponse
  unfolding dispatch
  serve now none s = (
    s,
    record { protocol_version = pos 0; request_id = []; result = err RpcError.invalid_request },
  )
  serve now (some req) s = elim (validate_protocol_version config req) [
    | none ↦ dispatch now req s
    | some e ↦ (
      s,
      record {
        protocol_version = req.protocol_version;
        request_id = req.request_id;
        result = err e;
      },
    )
  ]
