-- ===== src/Host/Retry.antt =====
-- What the two retry loops of the client answer, for every sequence of answers of the transport.
use rch_mac.Base.{
  ℕ, ◌≤◌, suc, zero, true, Option, none, some, Text, text, List, [], ◌∷◌, length, Result, ok, err,
  Value, string, Bool-cases, inl, inr, ◌≡◌, refl, ◌∙◌, ap, arith,
}
use rch_mac.Base.Max.{ℤ}
use rch_mac.Host.Envelope.{
  Operation, RpcRequest, RpcResponse, RpcErrorPayload, error, RpcError, exit_code,
}
use rch_mac.Host.Client.{
  RpcClientConfig, Transport, Session, busy_retry, upload_retry, busy_delay, is_busy, request_of,
}
use rch_mac.Host.Payloads.{with_member, field}
use rch_mac.Host.Operations.{reserve, upload_source, upload_payload}

-- A transport that gives the answers of a list, and fails at its end.
abbrev pub Script : Type 0
Script = List (Result RpcResponse Text)

abbrev answer : Script → Script × Result RpcResponse Text
answer [] = ([], err (text "end"))
answer (a ∷ w) = (w, a)

abbrev pub scripted : Transport Script
scripted = record {
  execute = λ request w. answer w;
  execute_framed = λ request content w. answer w;
  execute_fetch = λ request w. (w, err (text "end"));
  sleep = λ ms w. w;
  timestamp = λ w. text "0";
}

abbrev pub failing : List Text → Script → Script
failing [] w = w
failing (e ∷ es) w = err e ∷ failing es w

upload_retry_lem :
    (es : List Text) (r : RpcResponse) (w : Script) (left retries : ℕ) (config : RpcClientConfig)
    (request : RpcRequest) (content : List ℕ)
    → length es ≤ left
    → upload_retry scripted left retries config request content (failing es (ok r ∷ w)) ≡ (w, ok r)
unfolding upload_retry
upload_retry_lem [] r w zero retries config request content h = refl
upload_retry_lem [] r w (suc left) retries config request content h = refl
upload_retry_lem (e ∷ es) r w zero retries config request content h = absurd (omega arith)
upload_retry_lem (e ∷ es) r w (suc left) retries config request content h =
    upload_retry_lem es r w left (suc retries) config request content (omega arith)

-- An upload whose transport fails at most as often as the configuration allows retries, and then
-- answers that all is well, succeeds; the answers behind that one are not asked for.
pub upload_source_recovers :
    (as_i64 : Value → Option ℤ) (sha : Text) (content : List ℕ) (s : Session Script) (v : ℤ)
    (es : List Text) (r : RpcResponse) (w : Script)
    → s.client.negotiated_version ≡ some v
    → s.world ≡ failing es (ok r ∷ w)
    → r.is_ok ≡ true
    → length es ≤ s.client.config.upload_retries
    → let (t, out) = upload_source scripted as_i64 sha content s in (out ≡ ok tt) × (t.world ≡ w)
unfolding upload_source
upload_source_recovers as_i64 sha content s v es r w h world k few =
    let c = s.client.config in
    let request =
      request_of scripted v Operation.upload_source
        (upload_payload scripted as_i64 sha (length content) none) s in
    let loop : upload_retry scripted c.upload_retries 0 c request content s.world ≡ (w, ok r) =
      ap (upload_retry scripted c.upload_retries 0 c request content) world
      ∙ upload_retry_lem es r w c.upload_retries 0 c request content few in
    (ground arith, ground arith)

-- An answer that is an error, whatever version and request id it spells.
abbrev pub AnswersError : {W : Type 0} → Transport W → RpcRequest → W → Type 0
AnswersError net request w =
    (version : ℤ) × (id : Text) × (e : RpcErrorPayload) × ((net.execute request w).1
      ≡ ok (error version id e))

-- The answer that the loop of a reservation settles on, where every answer to its request is an error.
busy_retry-error :
    {W : Type 0} (net : Transport W) (request : RpcRequest)
    (fails : (w : W) → AnswersError net request w) (left delay : ℕ) (w : W)
    → (version : ℤ) × (id : Text) × (e : RpcErrorPayload) × ((busy_retry net left delay request w).1
        ≡ ok (some (error version id e)))
unfolding busy_retry error
busy_retry-error net request fails zero delay w =
    let (version, id, e, h) = fails w in (version, id, e, ground arith)
busy_retry-error net request fails (suc left) delay w =
    let (version, id, e, h) = fails w in
    let out = net.execute request w in
    let next = net.sleep (busy_delay net delay (error version id e)) out.0 in
    let (version', id', f, rest) = busy_retry-error net request fails left delay next in
    elim (Bool-cases (is_busy e)) [
      | inl b ↦ (version', id', f, ground arith)
      | inr b ↦ (version, id, e, ground arith)
    ]

-- A worker that answers every reservation request with an error, busy or not, makes a reservation of a
-- client that has negotiated a version fail with a protocol error, whose exit code is the one of a lost
-- connection and not the one of a busy worker. The errors, their versions and their ids may differ from
-- answer to answer.
pub reserve-error :
    {W : Type 0} (net : Transport W) (as_i64 : Value → Option ℤ) (run_id : Text)
    (ttl : Option Value) (s : Session W) (v : ℤ)
    → s.client.negotiated_version ≡ some v
    → ((request : RpcRequest) (w : W) → request.op ≡ Operation.reserve → AnswersError net request w)
    → (x : RpcError) × ((reserve net as_i64 run_id ttl s).1 ≡ some (err x)) × (exit_code x ≡ 20)
unfolding reserve error
reserve-error net as_i64 run_id ttl s v h fails =
    let c = s.client.config in
    let request =
      request_of net v Operation.reserve
        (with_member (text "ttl_seconds") ttl (field (text "run_id") (string run_id))) s in
    let (version, id, e, settled) =
      busy_retry-error net request (λ w. fails request w refl) c.busy_retries c.retry_max_delay_ms
        s.world in
    (RpcError.protocol (text "Reserve response missing payload"), ground arith, refl)
