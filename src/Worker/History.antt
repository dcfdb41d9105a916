-- ===== src/Worker/History.antt =====
-- A worker that serves requests one after the other: src/crates/rch-worker/src/rpc.rs on a state that
-- is kept between the requests.
use rch_mac.Base.{
  ℕ, ◌+◌, ◌≤◌, true, false, Option, none, some, Text, List, [], ◌∷◌, get, ltb, inl, inr, Bool-cases,
  contains-insert_self, ◌∙◌, ◌≡◌, refl, arith, ok,
}
use rch_mac.Worker.Protocol.{UploadSourceRequest, UploadSourceResponse, JobSpec}
use rch_mac.Worker.State.{MockJob, MockState, active_lease_count, has_source, add_source}
use rch_mac.Worker.Handlers.{WorkerConfig, check_source, source_of}
use rch_mac.Worker.Reads.{System, upload_source}
use rch_mac.Worker.Rpc.{Readers, RpcRequest, serve}
use rch_mac.Worker.Steps.{serve-Changes}
use rch_mac.Worker.Persistence.{Continues, Kept, Kept-trans, Kept-refl, Changes-Kept}
use rch_mac.Worker.Sources.{Stored, Changes-Stored, Changes-injection}
use rch_mac.Worker.Capacity.{Changes-capacity, active_lease_count_later}

module _ (readers : Readers) (system : System) (config : WorkerConfig) where
  -- Requests, each with the time that passes before it.
  unfoldable pub serve_all : ℕ → List (ℕ × Option RpcRequest) → MockState → ℕ × MockState
  serve_all now [] s = (now, s)
  serve_all now ((d, req) ∷ reqs) s =
      serve_all (now + d) reqs (serve readers system config (now + d) req s).0

  -- However many requests a worker serves, and whenever, no more leases are active than it may run
  -- jobs, if it was so at the start.
  pub serve_all-capacity :
      (now : ℕ) (reqs : List (ℕ × Option RpcRequest)) (s : MockState)
      → active_lease_count now s ≤ config.max_concurrent_jobs
      → let (end, t) = serve_all now reqs s in active_lease_count end t ≤ config.max_concurrent_jobs
  unfolding serve_all
  serve_all-capacity now [] s h = h
  serve_all-capacity now ((d, req) ∷ reqs) s h = serve_all-capacity (now + d) reqs _ (
      Changes-capacity config (now + d) (serve-Changes config (now + d) readers system req s)
        (omega (arith, active_lease_count_later now d s)))

  serve_all-Kept_lem :
      (now : ℕ) (reqs : List (ℕ × Option RpcRequest)) (s : MockState)
      → Kept s (serve_all now reqs s).1
  unfolding serve_all
  serve_all-Kept_lem now [] s = Kept-refl s
  serve_all-Kept_lem now ((d, req) ∷ reqs) s =
      Kept-trans
        (Changes-Kept config (now + d) (serve-Changes config (now + d) readers system req s))
        (serve_all-Kept_lem (now + d) reqs _)

  -- A job that a worker holds is held after any requests, as the same job: its id, key, run,
  -- specification, lease and time of birth are unchanged, and its log has only grown at the end, by
  -- whole characters.
  pub serve_all-Continues :
      (now : ℕ) (reqs : List (ℕ × Option RpcRequest)) (s : MockState) (id : Text) (job : MockJob)
      → get id s.jobs ≡ some job
      → let t = (serve_all now reqs s).1 in
        (later : MockJob) × (get id t.jobs ≡ some later) × Continues job later
  serve_all-Continues now reqs s id job h = (serve_all-Kept_lem now reqs s).keep id job h

  serve_all-Stored :
      (now : ℕ) (reqs : List (ℕ × Option RpcRequest)) (s : MockState)
      → Stored s (serve_all now reqs s).1
  unfolding serve_all
  serve_all-Stored now [] s sha k = k
  serve_all-Stored now ((d, req) ∷ reqs) s sha k =
      serve_all-Stored (now + d) reqs _ sha (
        Changes-Stored config (now + d) (serve-Changes config (now + d) readers system req s) sha k)

  serve_all-injection :
      (now : ℕ) (reqs : List (ℕ × Option RpcRequest)) (s : MockState)
      → (serve_all now reqs s).1.failure_injection ≡ s.failure_injection
  unfolding serve_all
  serve_all-injection now [] s = refl
  serve_all-injection now ((d, req) ∷ reqs) s =
      serve_all-injection (now + d) reqs _
      ∙ Changes-injection config (now + d) (serve-Changes config (now + d) readers system req s)

  add-has_source :
      (now size : ℕ) (sha content : Text) (s : MockState)
      → has_source sha (add_source now sha content size s) ≡ true
  unfolding has_source add_source
  add-has_source now size sha content s = contains-insert_self sha _ s.sources

  -- What an accepted upload leaves.
  upload_source_lem :
      (now : ℕ) (req : UploadSourceRequest) (s : MockState) (r : UploadSourceResponse)
      → (upload_source config now req s).1 ≡ ok r
      → let t = (upload_source config now req s).0 in
        (has_source req.source_sha256 t ≡ true) × (t.failure_injection ≡ s.failure_injection)
  unfolding upload_source add_source
  upload_source_lem now req s r h =
      let size = req.stream.content_length in
      let stored = add-has_source now size req.source_sha256 req.stream.content_sha256 s in
      elim (Bool-cases (ltb config.max_upload_bytes size)) [
        | inl e ↦ absurd (ground arith)
        | inr e ↦ elim (Bool-cases (has_source req.source_sha256 s)) [
          | inl f ↦ (ground arith, ground arith)
          | inr f ↦ (ground arith, ground arith)
        ]
      ]

  -- After an upload that is accepted, and any further requests, no job that names the source is
  -- refused for want of it, where the failure is not injected.
  pub upload-check_source :
      (now later : ℕ) (req : UploadSourceRequest) (reqs : List (ℕ × Option RpcRequest))
      (s : MockState) (r : UploadSourceResponse) (job : JobSpec)
      → s.failure_injection.source_missing ≡ false
      → (upload_source config now req s).1 ≡ ok r
      → source_of job ≡ some req.source_sha256
      → check_source job (serve_all later reqs (upload_source config now req s).0).1 ≡ none
  unfolding check_source
  upload-check_source now later req reqs s r job i h q =
      let t = (upload_source config now req s).0 in
      let (here, same) = upload_source_lem now req s r h in
      let kept = serve_all-Stored later reqs t req.source_sha256 here in
      let quiet = serve_all-injection later reqs t ∙ same in ground arith
