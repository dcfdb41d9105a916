-- ===== src/Host/Operations.antt =====
-- src/src/host/rpc.rs: the operations of the client. What `serde_json` answers for `as_i64` is a
-- parameter.
use rch_mac.Base.{
  ℕ, ◌+◌, ◌%◌, ◌^◌, leb, Ordering, Bool, true, false, Option, none, some, unwrap_or, if◌then◌else◌,
  Text, text, List, [], ◌++◌, length, drop, Result, ok, err, Value, unsigned, string, object,
  member, end, get_key,
}
use rch_mac.Base.Max.{ℤ, pos, compare_ℤ}
use rch_mac.Host.Payloads.{
  ReserveResponse, SubmitResponse, StatusResponse, TailResponse, CancelResponse, FetchResponse,
  UploadSourceResponse, CancelReason, as_text, ResumeRequest, text_at, bool_at, u64_at, to_i32,
  max_ℤ, min_ℤ, read_tail, read_status, field, number_of, with_member,
}
use rch_mac.Host.Envelope.{Operation, RpcResponse, RpcError, str_of}
use rch_mac.Host.Client.{
  RpcClient, Transport, Session, Reply, get_protocol_version, request_of, counted, payload_of,
  checked, ask, busy_retry, upload_retry,
}

module _ {W : Type 0} (net : Transport W) (as_i64 : Value → Option ℤ) where
  -- `get(k).and_then(as_i64).unwrap_or(1) as i32`
  abbrev pub version_at : Text → Value → ℤ
  version_at k p =
      to_i32 (elim (get_key k p) [ none ↦ pos 1 | some v ↦ unwrap_or (as_i64 v) (pos 1) ])

  -- The version that both sides speak, the largest there is.
  unfoldable pub negotiate : Value → RpcClient → Result ℤ RpcError
  negotiate p c =
      let worker_min = version_at (text "protocol_min") p in
      let worker_max = version_at (text "protocol_max") p in
      let low = max_ℤ c.host_protocol_min worker_min in
      let high = min_ℤ c.host_protocol_max worker_max in
      elim (compare_ℤ low high) [
        | Ordering.gt ↦ err (
            RpcError.version_negotiation_failed c.host_protocol_min c.host_protocol_max worker_min
              worker_max)
        | _ ↦ ok high
      ]

  unfoldable pub probe : Session W → Reply W Value
  unfolding negotiate
  probe s =
      let request = request_of net (pos 0) Operation.probe (object end) s in
      let out = net.execute request s.world in
      let t : Session W = record (counted net s) { world = out.0 } in
      elim (checked net (text "Probe failed with no error details") (text "probe") out.1) [
        | err e ↦ (t, err e)
        | ok r ↦ elim (payload_of net (text "Probe") r) [
          | err e ↦ (t, err e)
          | ok p ↦ elim (negotiate p (t.client)) [
            | err e ↦ (t, err e)
            | ok v ↦ (record t { client = record (t.client) { negotiated_version = some v } }, ok p)
          ]
        ]
      ]

  -- What an operation reads of the payload of the response.
  abbrev pub reading : {A : Type 0} → Text → (Value → A) → Reply W RpcResponse → Reply W A
  reading what f (s, err e) = (s, err e)
  reading what f (s, ok r) = (s, elim (payload_of net what r) [ err e ↦ err e | ok p ↦ ok (f p) ])

  -- The test of `ok` is not made here; a panic of the retries is answered as none.
  unfoldable pub reserve :
      Text → Option Value → Session W → Session W × Option (Result ReserveResponse RpcError)
  reserve run_id ttl s = elim (get_protocol_version (s.client)) [
    | err e ↦ (s, some (err e))
    | ok version ↦
        let payload =
          with_member (text "ttl_seconds") ttl (field (text "run_id") (string run_id)) in
        let request = request_of net version Operation.reserve payload s in
        let c = s.client.config in
        let out = busy_retry net c.busy_retries c.retry_max_delay_ms request s.world in
        (
          record (counted net s) { world = out.0 },
          elim (out.1) [
            | err e ↦ some (err (RpcError.transport e))
            | ok none ↦ none
            | ok (some r) ↦ some (elim (payload_of net (text "Reserve") r) [
              | err e ↦ err e
              | ok p ↦ ok (record {
                lease_id = text_at (text "lease_id") [] p;
                expires_at = text_at (text "expires_at") [] p;
              })
            ])
          ],
        )
  ]

  unfoldable pub release : Text → Session W → Reply W (Unit {0})
  unfolding ask
  release lease_id s =
      let out =
        ask net Operation.release (field (text "lease_id") (string lease_id)) (text "Release")
          lease_id s in
      (out.0, elim (out.1) [ err e ↦ err e | ok r ↦ ok tt ])

  unfoldable pub has_source : Text → Session W → Reply W Bool
  unfolding ask
  has_source sha s =
      let out =
        ask net Operation.has_source (field (text "source_sha256") (string sha)) (text "HasSource")
          sha s in
      (
        out.0,
        elim (out.1) [
          | err e ↦ err e
          | ok r ↦ ok (elim (r.payload) [ none ↦ false | some p ↦ bool_at (text "exists") false p ])
        ],
      )

  unfoldable pub submit :
      (job_id job_key sha : Text) → Option Text → Session W → Reply W SubmitResponse
  unfolding ask
  submit job_id job_key sha lease_id s =
      let payload = object (
        member (text "job_id") (string job_id) (
          member (text "job_key") (string job_key)
            (member (text "source_sha256") (string sha) end))) in
      let lease : Option Value = elim lease_id [ none ↦ none | some l ↦ some (string l) ] in
      reading (text "Submit")
        (λ p. record {
          job_id = text_at (text "job_id") job_id p;
          state = text_at (text "state") (text "QUEUED") p;
          created_at = text_at (text "created_at") [] p;
        })
        (ask net Operation.submit (with_member (text "lease_id") lease payload) (text "Submit")
          job_id s)

  unfoldable pub status : Text → Session W → Reply W StatusResponse
  unfolding ask read_status
  status job_id s =
      reading (text "Status") (read_status as_i64 job_id)
        (ask net Operation.status (field (text "job_id") (string job_id)) (text "Status") job_id s)

  unfoldable pub tail : Text → (cursor limit : Option ℕ) → Session W → Reply W TailResponse
  unfolding ask read_tail
  tail job_id cursor limit s =
      let payload =
        with_member (text "limit") (number_of limit) (
          with_member (text "cursor") (number_of cursor) (field (text "job_id") (string job_id))) in
      reading (text "Tail") read_tail (ask net Operation.tail payload (text "Tail") job_id s)

  unfoldable pub cancel : Text → Option CancelReason → Session W → Reply W CancelResponse
  unfolding ask
  cancel job_id reason s =
      let r : Option Value = elim reason [ none ↦ none | some x ↦ some (string (as_text x)) ] in
      reading (text "Cancel")
        (λ p. record {
          job_id = text_at (text "job_id") job_id p;
          state = text_at (text "state") (text "UNKNOWN") p;
          already_terminal = bool_at (text "already_terminal") false p;
        })
        (ask net Operation.cancel
          (with_member (text "reason") r (field (text "job_id") (string job_id))) (text "Cancel")
          job_id s)

  unfoldable pub fetch : Text → Session W → Reply W FetchResponse
  fetch job_id s = elim (get_protocol_version (s.client)) [
    | err e ↦ (s, err e)
    | ok version ↦
        let request =
          request_of net version Operation.fetch (field (text "job_id") (string job_id)) s in
        let out = net.execute_fetch request s.world in
        let t : Session W = record (counted net s) { world = out.0 } in
        elim (out.1) [
          | err e ↦ (t, err (RpcError.transport e))
          | ok got ↦ elim (checked net (text "Fetch failed") job_id (ok got.0)) [
            | err e ↦ (t, err e)
            | ok r ↦ (
              t,
              elim (payload_of net (text "Fetch") r) [
                | err e ↦ err e
                | ok p ↦ ok (record {
                  job_id = text_at (text "job_id") job_id p;
                  content = got.1;
                  stream_metadata = get_key (text "stream") p;
                })
              ],
            )
          ]
        ]
  ]

  abbrev pub upload_payload : Text → ℕ → Option ResumeRequest → Value
  upload_payload sha len resume =
      let stream = object (
        member (text "content_length") (unsigned len) (
          member (text "content_sha256") (string (text "sha256-" ++ sha)) (
            member (text "compression") (string (text "none"))
              (member (text "format") (string (text "tar")) end)))) in
      with_member (text "resume")
        (elim resume [
          | none ↦ none
          | some r ↦ some (
              object (
                member (text "upload_id") (string r.upload_id)
                  (member (text "offset") (unsigned r.offset) end)))
        ])
        (object (member (text "source_sha256") (string sha) (member (text "stream") stream end)))

  abbrev upload_read : ℕ → Value → UploadSourceResponse
  upload_read sent p = record {
    upload_id = str_of (get_key (text "upload_id") p);
    next_offset = unwrap_or (u64_at (text "next_offset") p) sent;
    complete = bool_at (text "complete") true p;
  }

  -- What is sent from an offset on.
  abbrev upload_from :
      ℤ → Text → List ℕ → ℕ → Option ResumeRequest → Session W → Reply W UploadSourceResponse
  upload_from version sha content offset resume s =
      let rest = drop offset content in
      let request =
        request_of net version Operation.upload_source (upload_payload sha (length content) resume)
          s in
      let c = s.client.config in
      let out = upload_retry net c.upload_retries 0 c request rest s.world in
      (
        record (counted net s) { world = out.0 },
        elim (checked net (text "Upload failed") sha out.1) [
          | err e ↦ err e
          | ok r ↦
              ok
                (upload_read ((offset + length rest) % 2 ^ 64) (unwrap_or (r.payload) (object end)))
        ],
      )

  unfoldable pub upload_source_resumable :
      Text → List ℕ → Option ResumeRequest → Session W → Reply W UploadSourceResponse
  upload_source_resumable sha content resume s = elim (get_protocol_version (s.client)) [
    | err e ↦ (s, err e)
    | ok version ↦ elim resume [
      | none ↦ upload_from version sha content 0 none s
      | some r ↦
          if leb (length content) r.offset
          then (
            s,
            ok (record {
              upload_id = some r.upload_id;
              next_offset = length content;
              complete = true;
            }),
          )
          else upload_from version sha content r.offset (some r) s
    ]
  ]

  unfoldable pub upload_source : Text → List ℕ → Session W → Reply W (Unit {0})
  unfolding upload_source_resumable
  upload_source sha content s =
      let out = upload_source_resumable sha content none s in
      (out.0, elim (out.1) [ err e ↦ err e | ok u ↦ ok tt ])
