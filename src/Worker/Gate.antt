-- ===== src/Worker/Gate.antt =====
-- Which requests are dispatched: the protocol versions of src/crates/rch-worker/src/rpc.rs.
use rch_mac.Base.{
  ℕ, Ordering, true, false, none, some, Option-cases, inl, inr, ◌⊎◌, ◌≡◌, ◌≢◌, ◌↔◌, arith, err,
}
use rch_mac.Base.Max.{ℤ, pos, negsuc, compare_ℤ}
use rch_mac.Worker.Protocol.{RpcError, ErrorCode, code}
use rch_mac.Worker.State.{MockState}
use rch_mac.Worker.Handlers.{WorkerConfig}
use rch_mac.Worker.Reads.{System}
use rch_mac.Worker.Rpc.{Readers, RpcRequest, is_probe, validate_protocol_version, dispatch, serve}

-- A probe speaks version 0; any other request speaks a version of the range that is not 0.
abbrev pub Speaks : WorkerConfig → RpcRequest → Type 0
Speaks config req =
    ((is_probe req.op ≡ true) × (req.protocol_version ≡ pos 0))
    ⊎ ((is_probe req.op ≡ false)
        × (req.protocol_version ≢ pos 0)
        × (compare_ℤ req.protocol_version config.protocol_min ≢ Ordering.lt)
        × (compare_ℤ req.protocol_version config.protocol_max ≢ Ordering.gt))

zero_iff : (v : ℤ) → (compare_ℤ v (pos 0) ≡ Ordering.eq) ↔ (v ≡ pos 0)
unfolding compare_ℤ
zero_iff (pos n) = ground arith
zero_iff (negsuc n) = ground arith

pub validate_protocol_version_iff :
    (config : WorkerConfig) (req : RpcRequest)
    → (validate_protocol_version config req ≡ none) ↔ Speaks config req
unfolding validate_protocol_version
validate_protocol_version_iff config req =
    let z = zero_iff req.protocol_version in (λ h. ground arith, λ h. ground arith)

refused-code :
    (config : WorkerConfig) (req : RpcRequest) (e : RpcError)
    → validate_protocol_version config req ≡ some e
    → code e ≡ some ErrorCode.unsupported_protocol
unfolding validate_protocol_version code
refused-code config req e h = ground arith

-- A request is dispatched exactly when it speaks a version that the worker offers; any other request
-- is answered as an unsupported protocol and changes nothing.
pub serve-Speaks :
    (readers : Readers) (system : System) (config : WorkerConfig) (now : ℕ) (req : RpcRequest)
    (s : MockState)
    → (Speaks config req
        × (serve readers system config now (some req) s ≡ dispatch readers system config now req s))
      ⊎ ((¬ Speaks config req)
          × ((serve readers system config now (some req) s).0 ≡ s)
          × (e : RpcError) × ((serve readers system config now (some req) s).1.result ≡ err e)
          × (code e ≡ some ErrorCode.unsupported_protocol))
unfolding serve
serve-Speaks readers system config now req s =
    elim (Option-cases (validate_protocol_version config req)) [
      | inl e ↦ inl ((validate_protocol_version_iff config req).0 e, ground arith)
      | inr (r, e) ↦ inr (
        λ speaks. let ok = (validate_protocol_version_iff config req).1 speaks in ground arith,
        ground arith,
        r,
        ground arith,
        refused-code config req r e,
      )
    ]
