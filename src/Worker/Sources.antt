-- ===== src/Worker/Sources.antt =====
-- What no request changes beside the jobs: a source stays, and so does what is injected.
use rch_mac.Base.{ℕ, true, Text, contains-insert, ◌≡◌, refl, ◌∙◌}
use rch_mac.Worker.State.{
  MockState, process_transitions, set_job_state, append_job_log, schedule_transitions,
  create_job_with_lease, create_lease, generate_id, release_lease, add_source, has_source,
  cleanup_expired_leases,
}
use rch_mac.Worker.Handlers.{WorkerConfig, start, stop}
use rch_mac.Worker.Steps.{Step, Changes}
use rch_mac.Worker.Steps.Step.{
  reserved, released, started, processed, stopped, stored, swept, backstopped,
}
use rch_mac.Worker.Steps.Changes.{here, next}

-- A source that is there stays.
abbrev pub Stored : MockState → MockState → Type 0
Stored s t = (sha : Text) → has_source sha s ≡ true → has_source sha t ≡ true

Step-Stored : (config : WorkerConfig) (now : ℕ) {s t : MockState} → Step config now s t → Stored s t
unfolding create_lease generate_id release_lease add_source cleanup_expired_leases stop
    process_transitions start create_job_with_lease schedule_transitions append_job_log
    set_job_state has_source
Step-Stored config now (reserved s ttl h) sha k = k
Step-Stored config now (released s id) sha k = k
Step-Stored config now (started s req a b c) sha k = k
Step-Stored config now (processed s id) sha k = k
Step-Stored config now (stopped s id job h o) sha k = k
Step-Stored config now (stored s new content size h) sha k = contains-insert new sha _ s.sources k
Step-Stored config now (swept s) sha k = k
Step-Stored config now (backstopped s id) sha k = k

pub Changes-Stored :
    (config : WorkerConfig) (now : ℕ) {s t : MockState} → Changes config now s t → Stored s t
Changes-Stored config now here sha k = k
Changes-Stored config now (next r st) sha k =
    Step-Stored config now st sha (Changes-Stored config now r sha k)

-- Requests do not change what is injected.
Step-injection :
    (config : WorkerConfig) (now : ℕ) {s t : MockState}
    → Step config now s t
    → t.failure_injection ≡ s.failure_injection
unfolding create_lease generate_id release_lease add_source cleanup_expired_leases stop
    process_transitions start create_job_with_lease schedule_transitions append_job_log
    set_job_state
Step-injection config now (reserved s ttl h) = refl
Step-injection config now (released s id) = refl
Step-injection config now (started s req a b c) = refl
Step-injection config now (processed s id) = refl
Step-injection config now (stopped s id job h o) = refl
Step-injection config now (stored s new content size h) = refl
Step-injection config now (swept s) = refl
Step-injection config now (backstopped s id) = refl

pub Changes-injection :
    (config : WorkerConfig) (now : ℕ) {s t : MockState}
    → Changes config now s t
    → t.failure_injection ≡ s.failure_injection
Changes-injection config now here = refl
Changes-injection config now (next r st) =
    Step-injection config now st ∙ Changes-injection config now r
