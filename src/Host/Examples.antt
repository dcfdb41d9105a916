-- ===== src/Host/Examples.antt =====
-- The client, the step and the uploads on concrete worlds.
use rch_mac.Base.{
  ℕ, if◌then◌else◌, ◌+◌, ◌-◌, ◌*◌, suc, leb, Bool, true, false, Option, none, some, Text, text,
  text_eq, List, [], ◌∷◌, ◌++◌, Result, ok, err, Value, Members, nil, cons, member, end, object,
  unsigned, string, bool, get, inl, inr, ◌⊎◌, ◌≡◌, refl, arith,
}
use rch_mac.Base.Max.{ℤ, pos}
use rch_mac.Summary.{JobSummary}
use rch_mac.Host.Envelope.{RpcRequest, RpcResponse, new_error, success, error, RpcError, exit_code}
use rch_mac.Host.Client.{Transport, Session, default_config, with_config}
use rch_mac.Host.Operations.{probe, reserve, submit, status, fetch, upload_source}
use rch_mac.Host.Negotiation.{Common, Le, probe-Agreed}
use rch_mac.Host.Retry.{Script, scripted, upload_source_recovers, reserve-error}
use rch_mac.Host.Payloads.{SubmitResponse}
use rch_mac.Host.Artifacts.{ArtifactEntryType, ArtifactEntry, Directory, plain}
use rch_mac.Host.Unpack.{Files, verify_directory}
use rch_mac.Host.Poll.{StepConfig, Outcome, execute_step, take_tail, streamer_at}
use rch_mac.Host.Watch.{execute_step-total}
use rch_mac.Host.Verdicts.{Succeeded, execute_step-success}
use rch_mac.Host.Payloads.{read_tail}
use rch_mac.Host.Wire.{WorkerTail, serialize, take_tail-serialize}
use rch_mac.Host.Uploads.{UploadSession, is_complete, remaining}
use rch_mac.Host.Sessions.{send_chunks, all_bytes, send_chunks-offset}

abbrev as_i64 : Value → Option ℤ
as_i64 (unsigned n) = some (pos n)
as_i64 _ = none

-- A worker that gives one answer to every request, and a clock that only the pauses move.
abbrev steady : (RpcRequest → RpcResponse) → Transport ℕ
steady answer = record {
  execute = λ r w. (w, ok (answer r));
  execute_framed = λ r c w. (w, ok (answer r));
  execute_fetch = λ r w. (w, ok (answer r, some (1 ∷ 2 ∷ [])));
  sleep = λ ms w. w + ms * 1000000;
  timestamp = λ w. text "0";
}

abbrev says : Value → Transport ℕ
says payload = steady (λ r. success r.protocol_version r.request_id payload)

abbrev fresh : Session ℕ
fresh = record { client = with_config default_config; world = 5 }

abbrev ready : {W : Type 0} → W → Session W
ready w = record {
  client = record (with_config default_config) { negotiated_version = some (pos 1) };
  world = w;
}

abbrev versions : Value
versions =
    object
      (member (text "protocol_min") (unsigned 1) (member (text "protocol_max") (unsigned 3) end))

probe-Agreed_example :
    let (t, out) = probe (says versions) as_i64 fresh in
    ((v : ℤ) × (out ≡ ok versions)
      × (t.client.negotiated_version ≡ some v)
      × Common (says versions) as_i64 versions fresh.client v
      × ((u : ℤ) → Common (says versions) as_i64 versions fresh.client u → Le u v))
    ⊎ ((e : RpcError) × (out ≡ err e)
        × (exit_code e ≡ 91)
        × (t.client.negotiated_version ≡ none)
        × ((u : ℤ) → ¬ Common (says versions) as_i64 versions fresh.client u))
unfolding success rch_mac.Base.reverse rch_mac.Base.low_digits
probe-Agreed_example =
    probe-Agreed (says versions) as_i64 fresh
      (record {
        protocol_version = pos 0;
        request_id = text "req-0-00000000";
        is_ok = true;
        payload = some versions;
        error = none;
      })
      versions refl refl refl

abbrev accepted : RpcResponse
accepted = record {
  protocol_version = pos 1;
  request_id = text "r";
  is_ok = true;
  payload = none;
  error = none;
}

abbrev lost : Script
lost = err (text "reset") ∷ err (text "reset") ∷ ok accepted ∷ []

upload_source_recovers_example :
    let (t, out) = upload_source scripted as_i64 (text "s") (7 ∷ []) (ready lost) in
    (out ≡ ok tt) × (t.world ≡ [])
upload_source_recovers_example =
    upload_source_recovers as_i64 (text "s") (7 ∷ []) (ready lost) (pos 1)
      (text "reset" ∷ text "reset" ∷ []) accepted [] refl refl refl (omega arith)

abbrev busy : Transport ℕ
busy =
    steady (λ r. error r.protocol_version r.request_id (new_error (text "BUSY") (text "no lease")))

reserve-error_example :
    (x : RpcError) × ((reserve busy as_i64 (text "run") none (ready 0)).1 ≡ some (err x))
    × (exit_code x ≡ 20)
reserve-error_example =
    reserve-error busy as_i64 (text "run") none (ready 0) (pos 1) refl (λ request w e. (
      request.protocol_version,
      request.request_id,
      new_error (text "BUSY") (text "no lease"),
      refl,
    ))

abbrev config : StepConfig
config = record { overall_timeout_seconds = 3; idle_timeout_seconds = 2; tail_poll_interval = 1000 }

-- One file, which stands in the directory as the manifest says.
abbrev a_file : ArtifactEntry
a_file = record {
  path = text "a";
  size = 2;
  sha256 = some (text "d");
  entry_type = ArtifactEntryType.file;
}

abbrev directory : Directory
directory = record {
  manifest_exists = true;
  manifest = ok (record { entries = a_file ∷ []; artifact_root_sha256 = text "r" });
  node = λ path. if text_eq path (text "a") then some (plain (ok 2) (ok (1 ∷ 2 ∷ []))) else none;
  walk = ok [] ∷ ok (text "a") ∷ ok (text "manifest.json") ∷ [];
}

abbrev intact : Files
intact = record {
  unpack =
      λ job content. record { write = none; tar = ok true; remove = none; directory = directory };
  digests = record { content = λ bytes. text "d"; root = λ es. ok (text "r") };
}

abbrev state_is : Text → Transport ℕ
state_is state = says (
    object
      (member (text "state") (string state) (member (text "artifacts_available") (bool true) end)))

execute_step-total_example :
    (out : Outcome (state_is (text "RUNNING")) as_i64 (λ w. w) intact config) × (execute_step
        (state_is (text "RUNNING"))
        as_i64
        (λ w. w)
        intact
        config
        5
        none
        (text "run")
        (text "j")
        (text "build")
        (text "s")
        (ready 0)
      ≡ some out)
execute_step-total_example =
    execute_step-total (state_is (text "RUNNING")) as_i64 (λ w. w) intact config
      (λ r w. omega arith) (λ ms w. omega arith) 4 none (text "run") (text "j") (text "build")
      (text "s") (ready 0) (omega arith)

abbrev green : Transport ℕ
green = state_is (text "SUCCEEDED")

abbrev after_green : Session ℕ
after_green = record (ready 0) {
  client = record (with_config default_config) {
    negotiated_version = some (pos 1);
    request_counter = 3;
  };
}

abbrev green_summary : JobSummary
green_summary = rch_mac.Summary.job_success (text "run") (text "j") (text "key-j") 0

execute_step-success_example :
    let submitted = submit green as_i64 (text "j") (text "key-j") (text "s") none (ready 0) in
    (r : SubmitResponse) × (submitted.1 ≡ ok r)
    × Succeeded green as_i64
        (λ w. w)
        intact
        config
        false
        (text "run")
        (text "j")
        (text "build")
        0
        submitted.0
        (streamer_at config 0 false)
unfolding execute_step submit success status text_eq rch_mac.Base.get_key rch_mac.Base.find_member
    fetch rch_mac.Summary.job_success rch_mac.Base.contains
execute_step-success_example =
    execute_step-success green as_i64 (λ w. w) intact config 1 none (text "run") (text "j")
      (text "build") (text "s") (ready 0) after_green green_summary [] refl refl

-- The same directory under a manifest with a wrong size, and without a manifest.
abbrev changed : Directory
changed = record directory {
  manifest =
      ok (record { entries = record a_file { size = 3 } ∷ []; artifact_root_sha256 = text "r" });
}

changed_reported :
    (verify_directory intact.digests changed ≡ ok (some (text "a: size mismatch (3 vs 2)" ∷ [])))
    × (verify_directory intact.digests (record changed { manifest_exists = false }) ≡ ok none)
unfolding verify_directory text_eq rch_mac.Base.contains rch_mac.Base.reverse
    rch_mac.Base.low_digits
changed_reported = (refl, refl)

send_chunks-offset_example :
    let after = send_chunks (text "u") (text "s") 10 (4 ∷ 6 ∷ []) [] in
    ((s : UploadSession) × (get (text "u") after ≡ some s)
      × (s.source_sha256 ≡ text "s")
      × (s.offset ≡ all_bytes (4 ∷ 6 ∷ []))
      × (is_complete s ≡ leb 10 (all_bytes (4 ∷ 6 ∷ [])))
      × (remaining s ≡ 10 - all_bytes (4 ∷ 6 ∷ [])))
    × ((j : Text) → text_eq (text "u") j ≡ false → get j after ≡ get j [])
unfolding get
send_chunks-offset_example =
    send_chunks-offset (text "u") (text "s") 10 4 (6 ∷ []) [] refl (omega arith)

abbrev spoken : WorkerTail
spoken = record {
  job_id = text "j";
  next_cursor = some (text "5");
  log_chunk = some (text "hello");
  events = nil;
}

take_tail-serialize_example :
    take_tail 9 (read_tail (serialize spoken)) (streamer_at config 1 true)
    ≡ record (streamer_at config 1 true) { cursor = none; complete = true }
take_tail-serialize_example = take_tail-serialize 9 spoken (streamer_at config 1 true)
