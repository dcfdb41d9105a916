-- ===== src/Host/Client.antt =====
-- src/src/host/rpc.rs: the state of the client, the requests that it sends, and the two loops that
-- send a request again. The world behind the transport is a parameter, as are the clock that marks
-- the requests and the pause between two attempts.
use rch_mac.Base.{
  ℕ, ◌-◌, ◌*◌, ◌%◌, ◌^◌, suc, zero, min, Bool, false, Option, none, some, unwrap_or, if◌then◌else◌,
  Text, text, text_eq, List, ◌++◌, hex8, Result, ok, err, Value,
}
use rch_mac.Base.Max.{ℤ, pos}
use rch_mac.Host.Envelope.{
  Operation, RpcRequest, RpcResponse, RpcErrorPayload, new_error, RpcError, retry_after,
  parse_error,
}

pub record RpcClientConfig : Type 0 where
  pub connect_timeout_seconds : ℕ
  pub ssh_connect_retries : ℕ
  pub retry_initial_delay_ms : ℕ
  pub retry_max_delay_ms : ℕ
  pub upload_retries : ℕ
  pub busy_retries : ℕ

abbrev pub default_config : RpcClientConfig
default_config = record {
  connect_timeout_seconds = 30;
  ssh_connect_retries = 3;
  retry_initial_delay_ms = 2000;
  retry_max_delay_ms = 30000;
  upload_retries = 3;
  busy_retries = 3;
}

pub record RpcClient : Type 0 where
  pub config : RpcClientConfig
  pub negotiated_version : Option ℤ
  pub host_protocol_min : ℤ
  pub host_protocol_max : ℤ
  pub request_counter : ℕ

abbrev pub with_config : RpcClientConfig → RpcClient
with_config config = record {
  config = config;
  negotiated_version = none;
  host_protocol_min = pos 1;
  host_protocol_max = pos 1;
  request_counter = 0;
}

-- The transport, with the world that a call changes. An error is the text that it shows.
pub record Transport (W : Type 0) : Type 0 where
  pub execute : RpcRequest → W → W × Result RpcResponse Text
  pub execute_framed : RpcRequest → List ℕ → W → W × Result RpcResponse Text
  pub execute_fetch : RpcRequest → W → W × Result (RpcResponse × Option (List ℕ)) Text
  pub sleep : ℕ → W → W
  pub timestamp : W → Text

pub record Session (W : Type 0) : Type 0 where
  pub client : RpcClient
  pub world : W

abbrev pub Reply : Type 0 → Type 0 → Type 0
Reply W A = Session W × Result A RpcError

-- `2u64.pow(attempt - 1)` and the product wrap around.
unfoldable pub calculate_backoff : RpcClientConfig → ℕ → ℕ
calculate_backoff config attempt =
    min (config.retry_initial_delay_ms * (2 ^ (attempt - 1) % 2 ^ 64) % 2 ^ 64)
      config.retry_max_delay_ms

abbrev pub get_protocol_version : RpcClient → Result ℤ RpcError
get_protocol_version c = elim (c.negotiated_version) [
  | some v ↦ ok v
  | none ↦ err (RpcError.protocol (text "Protocol version not negotiated - call probe() first"))
]

abbrev pub is_busy : RpcErrorPayload → Bool
is_busy e = text_eq e.code (text "BUSY")

-- The error of a response that is not ok, where there is one.
abbrev pub error_of : RpcResponse → Text → RpcErrorPayload
error_of r message = unwrap_or (r.error) (new_error (text "UNKNOWN") message)

module _ {W : Type 0} (net : Transport W) where
  abbrev pub next_request_id : Session W → Text
  next_request_id s =
      text "req-" ++ net.timestamp s.world ++ text "-" ++ hex8 (s.client.request_counter)

  abbrev pub counted : Session W → Session W
  counted s = record s {
    client = record (s.client) { request_counter = suc (s.client.request_counter) % 2 ^ 64 };
  }

  abbrev pub request_of : ℤ → Operation → Value → Session W → RpcRequest
  request_of version op payload s = record {
    protocol_version = version;
    op = op;
    request_id = next_request_id s;
    payload = payload;
  }

  -- `response.payload.ok_or_else(…)`
  abbrev pub payload_of : Text → RpcResponse → Result Value RpcError
  payload_of what r = elim (r.payload) [
    | some p ↦ ok p
    | none ↦ err (RpcError.protocol (what ++ text " response missing payload"))
  ]

  -- The test of `ok` that most operations make.
  abbrev pub checked : Text → Text → Result RpcResponse Text → Result RpcResponse RpcError
  checked message context (err e) = err (RpcError.transport e)
  checked message context (ok r) =
      if r.is_ok then ok r else err (parse_error (error_of r message) context)

  -- One request: the version, the next id, `execute` and the test of `ok`.
  unfoldable pub ask : Operation → Value → Text → Text → Session W → Reply W RpcResponse
  ask op payload what context s = elim (get_protocol_version (s.client)) [
    | err e ↦ (s, err e)
    | ok version ↦
        let out = net.execute (request_of version op payload s) s.world in
        (record (counted s) { world = out.0 }, checked (what ++ text " failed") context out.1)
  ]

  -- `error.as_ref().unwrap()` panics on a response that is not ok and has no error; no response is
  -- answered then.
  abbrev pub settle : RpcResponse → Option RpcResponse
  settle r = if r.is_ok then some r else elim (r.error) [ none ↦ none | some e ↦ some r ]

  abbrev pub wants_retry : RpcResponse → Bool
  wants_retry r = if r.is_ok then false else elim (r.error) [ none ↦ false | some e ↦ is_busy e ]

  abbrev pub busy_delay : ℕ → RpcResponse → ℕ
  busy_delay max_delay r =
      min (elim (r.error) [ none ↦ 30 | some e ↦ retry_after e ] * 1000 % 2 ^ 64) max_delay

  -- `execute_with_busy_retry`; the first argument counts the retries that are left.
  unfoldable pub busy_retry : ℕ → ℕ → RpcRequest → W → W × Result (Option RpcResponse) Text
  busy_retry zero max_delay request w =
      let out = net.execute request w in
      (out.0, elim (out.1) [ err e ↦ err e | ok r ↦ ok (settle r) ])
  busy_retry (suc more) max_delay request w =
      let out = net.execute request w in
      elim (out.1) [
        | err e ↦ (out.0, err e)
        | ok r ↦
            if wants_retry r
            then busy_retry more max_delay request (net.sleep (busy_delay max_delay r) out.0)
            else (out.0, ok (settle r))
      ]

  -- The loop of the upload; the first argument counts the retries that are left, the second those
  -- that were made.
  unfoldable pub upload_retry :
      ℕ → ℕ → RpcClientConfig → RpcRequest → List ℕ → W → W × Result RpcResponse Text
  upload_retry zero retries config request content w = net.execute_framed request content w
  upload_retry (suc more) retries config request content w =
      let out = net.execute_framed request content w in
      elim (out.1) [
        | ok r ↦ (out.0, ok r)
        | err e ↦
            upload_retry more (suc retries) config request content
              (net.sleep (calculate_backoff config (suc retries)) out.0)
      ]
