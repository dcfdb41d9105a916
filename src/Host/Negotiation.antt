-- ===== src/Host/Negotiation.antt =====
-- The version that `probe` settles, and the operations before it.
use rch_mac.Base.{
  ℕ, Ordering, true, Option, none, some, Text, text, Result, ok, err, Value, object, end, inl, inr,
  ◌⊎◌, ◌≡◌, ◌≢◌, refl, sym, subst, arith, List,
}
use rch_mac.Base.Compare.{cmp_refl, le_trans}
use rch_mac.Base.Max.{ℤ, pos, compare_ℤ, compare_ℤ-IsOrder}
use rch_mac.Host.Envelope.{Operation, RpcResponse, RpcError, exit_code}
use rch_mac.Host.Client.{RpcClient, Transport, Session, Reply, request_of, counted, ask}
use rch_mac.Host.Payloads.{max_ℤ, min_ℤ, CancelReason, ResumeRequest}
use rch_mac.Host.Operations.{
  version_at, negotiate, probe, reserve, release, has_source, submit, status, tail, cancel, fetch,
  upload_source_resumable,
}

-- `a` is at most `b`
abbrev pub Le : ℤ → ℤ → Type 0
Le a b = compare_ℤ a b ≢ Ordering.gt

abbrev pub Within : (low high v : ℤ) → Type 0
Within low high v = Le low v × Le v high

swapped : (a b : ℤ) → compare_ℤ a b ≡ Ordering.gt → Le b a
swapped a b h = let s = compare_ℤ-IsOrder.swap a b in λ k. ground arith

Ordering-cases : (o : Ordering) → (o ≡ Ordering.gt) ⊎ (o ≢ Ordering.gt)
Ordering-cases Ordering.lt = inr (λ h. cc)
Ordering-cases Ordering.eq = inr (λ h. cc)
Ordering-cases Ordering.gt = inl refl

le_refl : (a : ℤ) → Le a a
le_refl a = let r = cmp_refl compare_ℤ-IsOrder a in λ h. ground arith

max_ℤ_cases : (a b : ℤ) → ((max_ℤ a b ≡ a) × Le b a) ⊎ ((max_ℤ a b ≡ b) × Le a b)
max_ℤ_cases a b = elim (Ordering-cases (compare_ℤ a b)) [
  | inl h ↦ inl (ground arith, swapped a b h)
  | inr h ↦ inr (ground arith, h)
]

min_ℤ_cases : (a b : ℤ) → ((min_ℤ a b ≡ b) × Le b a) ⊎ ((min_ℤ a b ≡ a) × Le a b)
min_ℤ_cases a b = elim (Ordering-cases (compare_ℤ a b)) [
  | inl h ↦ inl (ground arith, swapped a b h)
  | inr h ↦ inr (ground arith, h)
]

-- The larger of two lower bounds is a bound for what both bound.
max_ℤ-iff :
    (a b v : ℤ) → (Le (max_ℤ a b) v → Le a v × Le b v) × (Le a v → Le b v → Le (max_ℤ a b) v)
max_ℤ-iff a b v = elim (max_ℤ_cases a b) [
  | inl (e, h) ↦ (
    λ q. let q' = subst (λ m. Le m v) e q in (q', le_trans compare_ℤ-IsOrder b a v h q'),
    λ q r. subst (λ m. Le m v) (sym e) q,
  )
  | inr (e, h) ↦ (
    λ q. let q' = subst (λ m. Le m v) e q in (le_trans compare_ℤ-IsOrder a b v h q', q'),
    λ q r. subst (λ m. Le m v) (sym e) r,
  )
]

min_ℤ-iff :
    (a b v : ℤ) → (Le v (min_ℤ a b) → Le v a × Le v b) × (Le v a → Le v b → Le v (min_ℤ a b))
min_ℤ-iff a b v = elim (min_ℤ_cases a b) [
  | inl (e, h) ↦ (
    λ q. let q' = subst (λ m. Le v m) e q in (le_trans compare_ℤ-IsOrder v b a q' h, q'),
    λ q r. subst (λ m. Le v m) (sym e) r,
  )
  | inr (e, h) ↦ (
    λ q. let q' = subst (λ m. Le v m) e q in (q', le_trans compare_ℤ-IsOrder v a b q' h),
    λ q r. subst (λ m. Le v m) (sym e) q,
  )
]

module _ {W : Type 0} (net : Transport W) (as_i64 : Value → Option ℤ) where
  -- A version that the host and the worker both speak.
  abbrev pub Common : Value → RpcClient → ℤ → Type 0
  Common p c v =
      Within c.host_protocol_min c.host_protocol_max v
      × Within (version_at net as_i64 (text "protocol_min") p)
          (version_at net as_i64 (text "protocol_max") p) v

  -- Either the largest common version, or none and the error that says so.
  abbrev pub Agreed : Value → RpcClient → Result ℤ RpcError → Type 0
  Agreed p c r =
      ((v : ℤ) × (r ≡ ok v) × Common p c v × ((u : ℤ) → Common p c u → Le u v))
      ⊎ ((r
            ≡ err (
                RpcError.version_negotiation_failed c.host_protocol_min c.host_protocol_max
                  (version_at net as_i64 (text "protocol_min") p)
                  (version_at net as_i64 (text "protocol_max") p)))
          × ((u : ℤ) → ¬ Common p c u))

  negotiate-Agreed : (p : Value) (c : RpcClient) → Agreed p c (negotiate net as_i64 p c)
  unfolding negotiate
  negotiate-Agreed p c =
      let wl = version_at net as_i64 (text "protocol_min") p in
      let wh = version_at net as_i64 (text "protocol_max") p in
      let low = max_ℤ c.host_protocol_min wl in
      let high = min_ℤ c.host_protocol_max wh in
      let (above, lowest) = max_ℤ-iff c.host_protocol_min wl high in
      elim (Ordering-cases (compare_ℤ low high)) [
        | inl h ↦ inr (
          ground arith,
          λ u q.
              let l = (max_ℤ-iff c.host_protocol_min wl u).1 q.0.0 q.1.0 in
              let m = (min_ℤ-iff c.host_protocol_max wh u).1 q.0.1 q.1.1 in
              le_trans compare_ℤ-IsOrder low u high l m h,
        )
        | inr h ↦
            let (a, b) = above h in
            let (d, e) = (min_ℤ-iff c.host_protocol_max wh high).0 (le_refl high) in
            inl (
              high,
              ground arith,
              ((a, d), (b, e)),
              λ u q. (min_ℤ-iff c.host_protocol_max wh u).1 q.0.1 q.1.1,
            )
      ]

  -- A worker that answers a probe with its capabilities: the version is settled as the largest that
  -- both sides speak, and the capabilities are the answer; or there is none, the probe fails with exit
  -- code 91, and no version is settled that was not before.
  pub probe-Agreed :
      (s : Session W) (r : RpcResponse) (p : Value)
      → (net.execute (request_of net (pos 0) Operation.probe (object end) s) s.world).1 ≡ ok r
      → r.is_ok ≡ true
      → r.payload ≡ some p
      → let (t, out) = probe net as_i64 s in
        ((v : ℤ) × (out ≡ ok p)
          × (t.client.negotiated_version ≡ some v)
          × Common p s.client v
          × ((u : ℤ) → Common p s.client u → Le u v))
        ⊎ ((e : RpcError) × (out ≡ err e)
            × (exit_code e ≡ 91)
            × (t.client.negotiated_version ≡ s.client.negotiated_version)
            × ((u : ℤ) → ¬ Common p s.client u))
  unfolding probe
  probe-Agreed s r p h k q =
      let c = (counted net s).client in
      elim (negotiate-Agreed p c) [
        | inl (v, e, a, m) ↦ inl (v, ground arith, ground arith, a, m)
        | inr (e, m) ↦ inr (
          RpcError.version_negotiation_failed s.client.host_protocol_min s.client.host_protocol_max
              (version_at net as_i64 (text "protocol_min") p)
              (version_at net as_i64 (text "protocol_max") p),
          ground arith,
          refl,
          ground arith,
          m,
        )
      ]

  -- The answer of an operation that has no version to send.
  abbrev pub unprobed : {A : Type 0} → Session W → Reply W A
  unprobed s =
      (s, err (RpcError.protocol (text "Protocol version not negotiated - call probe() first")))

  -- Before a probe has settled a version, no other operation touches the world or takes a request id,
  -- and each answers that a probe is missing.
  probe_first :
      (s : Session W) (job_id key sha : Text) (lease : Option Text) (ttl : Option Value)
      (cursor limit : Option ℕ) (reason : Option CancelReason) (content : List ℕ)
      (resume : Option ResumeRequest)
      → s.client.negotiated_version ≡ none
      → (submit net as_i64 job_id key sha lease s ≡ unprobed s)
        × (status net as_i64 job_id s ≡ unprobed s)
        × (tail net as_i64 job_id cursor limit s ≡ unprobed s)
        × (cancel net as_i64 job_id reason s ≡ unprobed s)
        × (fetch net as_i64 job_id s ≡ unprobed s)
        × (has_source net as_i64 sha s ≡ unprobed s)
        × (upload_source_resumable net as_i64 sha content resume s ≡ unprobed s)
        × (release net as_i64 job_id s ≡ unprobed s)
        × (reserve net as_i64 job_id ttl s ≡ (s, some (unprobed s).1))
  unfolding ask submit status tail cancel fetch has_source upload_source_resumable release reserve
  probe_first s job_id key sha lease ttl cursor limit reason content resume h = (
    ground arith,
    ground arith,
    ground arith,
    ground arith,
    ground arith,
    ground arith,
    ground arith,
    ground arith,
    ground arith,
  )
