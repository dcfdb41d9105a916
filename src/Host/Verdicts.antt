-- ===== src/Host/Verdicts.antt =====
-- What a step reports, against what the worker said of its job.
use mathlib.Core.Option.{some-injective}
use rch_mac.Base.{
  ℕ, suc, zero, Bool, true, Option, none, some, Text, text, text_eq, text_eq_iff, List, [], Result,
  ok, err, Result-cases, Bool-cases, ok-injective, ◌-◌, ◌/◌, Value, inl, inr, ◌⊎◌, ◌≡◌, refl, sym,
  ◌∙◌, ap, arith,
}
use rch_mac.Base.Max.{ℤ}
use rch_mac.Run.{Status}
use rch_mac.Summary.{JobSummary, job_success, job_failure, job_cancelled}
use rch_mac.Host.Client.{Transport, Session}
use rch_mac.Host.Verified.{Delivered, fetch_artifacts-Delivered}
use rch_mac.Host.Payloads.{StatusResponse, FetchResponse, SubmitResponse, CancelReason}
use rch_mac.Host.Operations.{status, submit, cancel, fetch}
use rch_mac.Host.Streaming.{LogStreamer, is_terminal_state}
use rch_mac.Host.Unpack.{StepError, Files}
use rch_mac.Host.Poll.{
  StepConfig, Outcome, Turn, idle, overdue, finish, give_up, stream_logs, turn, follow,
  execute_step, job_key_of, offers_tail, streamer_at, fetch_artifacts, state_summary,
  integrity_summary,
}

-- A summary of success is made of the state SUCCEEDED alone.
state_summary-success :
    (run_id job_id action state : Text) (ms : ℕ)
    → (state_summary run_id job_id action state ms).status ≡ Status.success
    → state ≡ text "SUCCEEDED"
unfolding state_summary job_success job_failure job_cancelled
state_summary-success run_id job_id action state ms h =
    elim (Bool-cases (text_eq state (text "SUCCEEDED"))) [
      | inl e ↦ (text_eq_iff state (text "SUCCEEDED")).0 e
      | inr e ↦ elim (Bool-cases (text_eq state (text "CANCELLED"))) [
        | inl f ↦ absurd (ground arith)
        | inr f ↦ absurd (ground arith)
      ]
    ]

integrity_summary-failed :
    (run_id job_id : Text) (ms : ℕ) → (integrity_summary run_id job_id ms).status ≡ Status.failed
unfolding integrity_summary job_failure
integrity_summary-failed run_id job_id ms = refl

abbrev Same :
    Result (JobSummary × List Text) StepError → Result (JobSummary × List Text) StepError → Type 0
Same a b = a ≡ b

module _ {W : Type 0} (net : Transport W) (as_i64 : Value → Option ℤ) (clock : W → ℕ)
    (files : Files) (config : StepConfig) where
  -- What the loop comes to, turn by turn, from the session and the streamer that it starts with.
  pub data Reached (b : Bool) (run_id job_id action : Text) (start : ℕ) (s0 : Session W)
      (st0 : LogStreamer) : Session W → LogStreamer → Type 0 where
    here : Reached b run_id job_id action start s0 st0 s0 st0
    step :
        {s t : Session W} {st next : LogStreamer}
        → Reached b run_id job_id action start s0 st0 s st
        → turn net as_i64 clock files config b run_id job_id action start s st ≡ Turn.again t next
        → Reached b run_id job_id action start s0 st0 t next

  -- In a turn of the loop the worker said SUCCEEDED, and what was fetched then, where it offered
  -- artifacts.
  pub record Succeeded (b : Bool) (run_id job_id action : Text) (start : ℕ) (s0 : Session W)
      (st0 : LogStreamer) : Type 0 where
    pub before : Session W
    pub streamer : LogStreamer
    pub reached : Reached b run_id job_id action start s0 st0 before streamer
    pub answer : StatusResponse
    pub said : (status net as_i64 job_id before).1 ≡ ok answer
    pub state : answer.state ≡ text "SUCCEEDED"
    pub delivered :
        answer.artifacts_available ≡ true
        → (r : FetchResponse) × ((fetch net as_i64 job_id (status net as_i64 job_id before).0).1
            ≡ ok r)
          × Delivered files job_id r.content

  finish-success :
      (run_id job_id action : Text) (start : ℕ) (st : StatusResponse) (s : Session W)
      (sum : JobSummary) (errors : List Text)
      → (finish net as_i64 clock files config run_id job_id action start st s).1 ≡ ok (sum, errors)
      → sum.status ≡ Status.success
      → (st.state ≡ text "SUCCEEDED")
        × (st.artifacts_available ≡ true
            → (fetch_artifacts net as_i64 clock files config job_id s).1 ≡ ok none)
  unfolding finish
  finish-success run_id job_id action start st s sum errors h k =
      let ms = (clock s.world - start) / 1000000 in
      let got = (fetch_artifacts net as_i64 clock files config job_id s).1 in
      elim (Bool-cases (st.artifacts_available)) [
        | inr e ↦ (made ms (ground arith), λ q. absurd (ground arith))
        | inl e ↦ elim (Result-cases got) [
          | inr (x, f) ↦ absurd (no_answer {x = x} (sym h ∙ ground arith))
          | inl (none, f) ↦ (made ms (ground arith), λ q. f)
          | inl (some es, f) ↦ absurd (broken ms es (ground arith))
        ]
      ]
    where
      same : {a b : JobSummary × List Text} → Same (ok a) (ok b) → a ≡ b
      same q = ok-injective q

      made :
          (ms : ℕ)
          → Same (ok (state_summary run_id job_id action st.state ms, [])) (ok (sum, errors))
          → st.state ≡ text "SUCCEEDED"
      made ms q =
          let e = ap (λ (x : JobSummary × List Text). x.0.status) (same q) in
          state_summary-success run_id job_id action st.state ms (e ∙ k)

      broken :
          (ms : ℕ) (es : List Text)
          → Same (ok (integrity_summary run_id job_id ms, es)) (ok (sum, errors))
          → ⊥
      broken ms es q =
          let e = ap (λ (x : JobSummary × List Text). x.0.status) (same q) ∙ k in
          let f = integrity_summary-failed run_id job_id ms in
          let g : Status.failed ≡ Status.success = sym f ∙ e in cc

      no_answer : {x : StepError} → Same (ok (sum, errors)) (err x) → ⊥
      no_answer q = cc

  abbrev Told : Type 0
  Told = Outcome net as_i64 clock files config

  Turn-cases :
      (x : Turn net as_i64 clock files config)
      → ((out : Told) × (x ≡ Turn.done out))
        ⊎ ((t : Session W) × (n : LogStreamer) × (x ≡ Turn.again t n))
  Turn-cases (Turn.done out) = inl (out, refl)
  Turn-cases (Turn.again t n) = inr (t, n, refl)

  module _ (b : Bool) (run_id job_id action : Text) (start : ℕ) (sum : JobSummary)
      (errors : List Text) where
    give_up_fails :
        (reason : CancelReason) (s : Session W)
        → (give_up net as_i64 clock files config job_id reason s).1 ≡ ok (sum, errors)
        → ⊥
    unfolding give_up
    give_up_fails reason s h = elim (Result-cases ((cancel net as_i64 job_id (some reason) s).1)) [
      | inl (r, e) ↦ ground arith
      | inr (x, e) ↦ ground arith
    ]

    -- A turn that ends with a summary ends in the branch of a terminal status.
    turn-done :
        (s : Session W) (st : LogStreamer) (out : Told)
        → turn net as_i64 clock files config b run_id job_id action start s st ≡ Turn.done out
        → out.1 ≡ ok (sum, errors)
        → (r : StatusResponse) × ((status net as_i64 job_id s).1 ≡ ok r)
          × ((finish net as_i64 clock files config run_id job_id action start r
                (status net as_i64 job_id s).0).1
              ≡ ok (sum, errors))
    unfolding turn
    turn-done s st out h k =
        let asked = status net as_i64 job_id s in
        let told = stream_logs net as_i64 clock files config b job_id asked.0 st in
        let f1 = give_up_fails CancelReason.timeout_idle told.0 in
        let f2 = give_up_fails CancelReason.timeout_overall told.0 in
        elim (Result-cases (asked.1)) [
          | inr (e, q) ↦ absurd (ground arith)
          | inl (r, q) ↦ elim (Bool-cases (is_terminal_state r.state)) [
            | inl x ↦ (r, q, ground arith)
            | inr x ↦ elim (Bool-cases (idle net as_i64 clock files config told.0 told.1)) [
              | inl y ↦ absurd (ground arith)
              | inr y ↦ elim (Bool-cases (overdue net as_i64 clock files config start told.0)) [
                | inl z ↦ absurd (ground arith)
                | inr z ↦ absurd (ground arith)
              ]
            ]
          ]
        ]

    follow-success :
        (fuel : ℕ) (s0 s t : Session W) (st0 st : LogStreamer)
        → Reached b run_id job_id action start s0 st0 s st
        → follow net as_i64 clock files config fuel b run_id job_id action start s st
          ≡ some (t, ok (sum, errors))
        → sum.status ≡ Status.success
        → Succeeded b run_id job_id action start s0 st0
    unfolding follow
    follow-success zero s0 s t st0 st w h k = absurd (ground arith)
    follow-success (suc fuel) s0 s t st0 st w h k =
        let rest = follow-success fuel in
        elim (Turn-cases (turn net as_i64 clock files config b run_id job_id action start s st)) [
          | inr (u, n, e) ↦ rest s0 u t st0 n (step w e) (ground arith) k
          | inl (out, e) ↦
              let same : some out ≡ some (t, ok (sum, errors)) = ground arith in
              let (r, q, f) =
                turn-done s st out e (ap (λ (o : Told). o.1) (some-injective _ _ same)) in
              let asked = (status net as_i64 job_id s).0 in
              let (state, fetched) =
                finish-success run_id job_id action start r asked sum errors f k in
              record {
                before = s;
                streamer = st;
                reached = w;
                answer = r;
                said = q;
                state = state;
                delivered = λ a.
                    fetch_artifacts-Delivered net as_i64 clock files config job_id asked
                      (fetched a);
              }
        ]

  -- A step that reports success, however many turns it took: the worker accepted the job, and in a turn
  -- of the loop that follows it answered the status SUCCEEDED. Where that answer offered artifacts, the
  -- fetching that followed it answered, and it either brought no content, or left no manifest.json in the
  -- directory of the step, or left there what the manifest says: its root is the digest of its entries,
  -- each entry stands there as a directory, or as a file of its size and, where the entry has one, of its
  -- digest, and no path is there that is neither an entry nor one of the three files that are excluded.
  pub execute_step-success :
      (fuel : ℕ) (capabilities : Option Value) (run_id job_id action sha : Text) (s t : Session W)
      (sum : JobSummary) (errors : List Text)
      → execute_step net as_i64 clock files config fuel capabilities run_id job_id action sha s
        ≡ some (t, ok (sum, errors))
      → sum.status ≡ Status.success
      → let submitted = submit net as_i64 job_id (job_key_of job_id) sha none s in
        let start = clock submitted.0.world in
        let b = offers_tail capabilities in
        (r : SubmitResponse) × (submitted.1 ≡ ok r)
        × Succeeded b run_id job_id action start submitted.0 (streamer_at config start b)
  unfolding execute_step
  execute_step-success fuel capabilities run_id job_id action sha s t sum errors h k =
      let submitted = submit net as_i64 job_id (job_key_of job_id) sha none s in
      let b = offers_tail capabilities in
      let start = clock submitted.0.world in
      let streamer = streamer_at config start b in
      elim (Result-cases (submitted.1)) [
        | inr (x, e) ↦ absurd (ground arith)
        | inl (r, e) ↦ (
          r,
          e,
          follow-success b run_id job_id action start sum errors fuel submitted.0 submitted.0 t
              streamer streamer here (ground arith) k,
        )
      ]
