-- ===== src/Host/Watch.antt =====
-- How the loop of src/src/pipeline.rs that follows a job ends.
use rch_mac.Base.{
  ℕ, ◌+◌, ◌-◌, ◌*◌, ◌/◌, ◌≤◌, suc, zero, Bool, true, false, Option, none, some, Text, text, ok, err,
  Result-cases, Bool-cases, Option-cases, Value, inl, inr, ◌⊎◌, ◌≡◌, refl, ap, arith,
}
use rch_mac.Base.Max.{ℤ}
use rch_mac.Host.Envelope.{Operation, RpcRequest, RpcResponse}
use rch_mac.Host.Client.{Transport, Session, Reply, ask, request_of}
use rch_mac.Host.Payloads.{CancelReason, read_status, read_tail}
use rch_mac.Host.Operations.{status, submit, tail, reading}
use rch_mac.Host.Streaming.{LogStreamer, is_terminal_state}
use rch_mac.Host.Unpack.{StepError, Files}
use rch_mac.Host.Poll.{
  StepConfig, Outcome, Turn, idle, overdue, second, finish, give_up, stream_logs, turn, follow,
  execute_step, job_key_of, offers_tail, streamer_at,
}

module _ {W : Type 0} (net : Transport W) (as_i64 : Value → Option ℤ) (clock : W → ℕ)
    (files : Files) (config : StepConfig)
    (runs : (request : RpcRequest) (w : W) → clock w ≤ clock (net.execute request w).0)
    (pauses : (ms : ℕ) (w : W) → clock w + ms * 1000000 ≤ clock (net.sleep ms w)) where
  reading-session :
      {A : Type 0} (what : Text) (f : Value → A) (x : Reply W RpcResponse)
      → (reading net as_i64 what f x).0 ≡ x.0
  reading-session what f (s, err e) = refl
  reading-session what f (s, ok r) = refl

  ask-clock :
      (op : Operation) (payload : Value) (what context : Text) (s : Session W)
      → clock s.world ≤ clock (ask net op payload what context s).0.world
  unfolding ask
  ask-clock op payload what context s = elim (Option-cases (s.client.negotiated_version)) [
    | inl e ↦ ground arith
    | inr (v, e) ↦ let r = runs (request_of net v op payload s) s.world in ground arith
  ]

  reading-clock :
      {A : Type 0} (f : Value → A) (op : Operation) (payload : Value) (what context : Text)
      (s : Session W)
      → clock s.world
        ≤ clock (reading net as_i64 what f (ask net op payload what context s)).0.world
  reading-clock f op payload what context s =
      let a = ask-clock op payload what context s in
      let e =
        ap (λ (t : Session W). clock t.world)
          (reading-session what f (ask net op payload what context s)) in
      omega arith

  status-clock :
      (job_id : Text) (s : Session W) → clock s.world ≤ clock (status net as_i64 job_id s).0.world
  unfolding status
  status-clock job_id s = reading-clock (read_status as_i64 job_id) _ _ (text "Status") job_id s

  stream_logs-clock :
      (b : Bool) (job_id : Text) (s : Session W) (st : LogStreamer)
      → clock s.world ≤ clock (stream_logs net as_i64 clock files config b job_id s st).0.world
  unfolding stream_logs tail
  stream_logs-clock false job_id s st = omega arith
  stream_logs-clock true job_id s st = reading-clock read_tail _ _ (text "Tail") job_id s

  -- A turn that goes on started before the limit and leaves the clock at least a pause later.
  turn_again :
      (b : Bool) (run_id job_id action : Text) (start : ℕ) (s : Session W) (st : LogStreamer)
      → ((out : Outcome net as_i64 clock files config) × (turn net as_i64 clock files config b
              run_id job_id action start s st
            ≡ Turn.done out))
        ⊎ ((t : Session W) × (next : LogStreamer) × (turn net as_i64 clock files config b run_id
                job_id action start s st
              ≡ Turn.again t next)
            × (clock s.world + config.tail_poll_interval * 1000000 ≤ clock t.world)
            × ((clock s.world - start) / second ≤ config.overall_timeout_seconds))
  unfolding turn
  turn_again b run_id job_id action start s st =
      let asked = status net as_i64 job_id s in
      let told = stream_logs net as_i64 clock files config b job_id asked.0 st in
      let c = status-clock job_id s in
      let d = stream_logs-clock b job_id asked.0 st in
      let p = pauses config.tail_poll_interval told.0.world in
      elim (Result-cases (asked.1)) [
        | inr (e, h) ↦ inl ((asked.0, err (StepError.rpc e)), ground arith)
        | inl (r, h) ↦ elim (Bool-cases (is_terminal_state r.state)) [
          | inl h' ↦ inl (
            finish net as_i64 clock files config run_id job_id action start r asked.0,
            ground arith,
          )
          | inr h' ↦ elim (Bool-cases (idle net as_i64 clock files config told.0 told.1)) [
            | inl k ↦ inl (
              give_up net as_i64 clock files config job_id CancelReason.timeout_idle told.0,
              ground arith,
            )
            | inr k ↦ elim (Bool-cases (overdue net as_i64 clock files config start told.0)) [
              | inl m ↦ inl (
                give_up net as_i64 clock files config job_id CancelReason.timeout_overall told.0,
                ground arith,
              )
              | inr m ↦ inr (
                record (told.0) { world = net.sleep config.tail_poll_interval told.0.world },
                told.1,
                ground arith,
                omega arith,
                ground arith,
              )
            ]
          ]
        ]
      ]

  follow-total :
      (fuel : ℕ) (b : Bool) (run_id job_id action : Text) (start : ℕ) (s : Session W)
      (st : LogStreamer)
      → start ≤ clock s.world
      → (config.overall_timeout_seconds + 1) * second
        ≤ (clock s.world - start) + fuel * (config.tail_poll_interval * 1000000)
      → (out : Outcome net as_i64 clock files config) × (follow net as_i64 clock files config
            (suc fuel)
            b
            run_id
            job_id
            action
            start
            s
            st
          ≡ some out)
  unfolding follow
  follow-total zero b run_id job_id action start s st h k =
      elim (turn_again b run_id job_id action start s st) [
        | inl (out, e) ↦ (out, ground arith)
        | inr (t, next, e, later, early) ↦ absurd (omega arith)
      ]
  follow-total (suc fuel) b run_id job_id action start s st h k =
      elim (turn_again b run_id job_id action start s st) [
        | inl (out, e) ↦ (out, ground arith)
        | inr (t, next, e, later, early) ↦
            let (out, rest) =
              follow-total fuel b run_id job_id action start t next (omega arith) (omega arith) in
            (out, ground arith)
      ]

  -- Whatever the worker answers, also if its job never ends: where no call turns the clock back and a
  -- pause lasts at least its length, a step has come to an end after one turn more than the pauses that
  -- fill the overall timeout and a second.
  pub execute_step-total :
      (fuel : ℕ) (capabilities : Option Value) (run_id job_id action sha : Text) (s : Session W)
      → (config.overall_timeout_seconds + 1) * second ≤ fuel * (config.tail_poll_interval * 1000000)
      → (out : Outcome net as_i64 clock files config) × (execute_step net as_i64 clock files config
            (suc fuel)
            capabilities
            run_id
            job_id
            action
            sha
            s
          ≡ some out)
  unfolding execute_step
  execute_step-total fuel capabilities run_id job_id action sha s k =
      let submitted = submit net as_i64 job_id (job_key_of job_id) sha none s in
      let start = clock submitted.0.world in
      let (out, e) =
        follow-total fuel (offers_tail capabilities) run_id job_id action start submitted.0
          (streamer_at config start (offers_tail capabilities)) (omega arith) (omega arith) in
      elim (Result-cases (submitted.1)) [
        | inr (x, h) ↦ ((submitted.0, err (StepError.rpc x)), ground arith)
        | inl (r, h) ↦ (out, ground arith)
      ]
