-- ===== src/Worker/Persistence.antt =====
-- What no request takes away: jobs keep their identity and their log, sources stay.
use mathlib.Core.List.{append-nil, append_assoc}
use rch_mac.Base.{
  ℕ, Option, none, some, Text, text_eq, text_eq_iff, List, [], ◌∷◌, ◌++◌, get, get-insert,
  get-modify, insert, unwrap_or, Bool-cases, inl, inr, utf8, utf8-append, ◌≡◌, refl, sym, ◌∙◌, ap,
  arith,
}
use rch_mac.State.Job.{JobState}
use rch_mac.Worker.Protocol.{JobSpec, SubmitRequest}
use rch_mac.Worker.State.{
  MockJob, MockState, ScheduledTransition, process_job, process_transitions, set_job_state,
  append_job_log, schedule_transitions, create_job_with_lease, create_lease, generate_id,
  release_lease, add_source, cleanup_expired_leases, update_job,
}
use rch_mac.Worker.Handlers.{WorkerConfig, start, start_text, stop}
use rch_mac.Worker.Steps.{Step, Changes}
use rch_mac.Worker.Steps.Step.{
  reserved, released, started, processed, stopped, stored, swept, backstopped,
}
use rch_mac.Worker.Steps.Changes.{here, next}

-- A later record of the same job: only the state, the schedule and the end of the log may differ.
pub record Continues (job later : MockJob) : Type 0 where
  pub same_id : later.job_id ≡ job.job_id
  pub same_key : later.job_key ≡ job.job_key
  pub same_run : later.run_id ≡ job.run_id
  pub same_spec : later.spec ≡ job.spec
  pub same_lease : later.lease_id ≡ job.lease_id
  pub same_birth : later.created_at ≡ job.created_at
  pub added : Text
  pub log : later.log_buffer ≡ job.log_buffer ++ utf8 added

pub Continues-refl : (job : MockJob) → Continues job job
unfolding utf8
Continues-refl job = record {
  same_id = refl;
  same_key = refl;
  same_run = refl;
  same_spec = refl;
  same_lease = refl;
  same_birth = refl;
  added = [];
  log = sym (append-nil job.log_buffer);
}

Continues-trans : {a b c : MockJob} → Continues a b → Continues b c → Continues a c
Continues-trans {a} h k = record {
  same_id = k.same_id ∙ h.same_id;
  same_key = k.same_key ∙ h.same_key;
  same_run = k.same_run ∙ h.same_run;
  same_spec = k.same_spec ∙ h.same_spec;
  same_lease = k.same_lease ∙ h.same_lease;
  same_birth = k.same_birth ∙ h.same_birth;
  added = h.added ++ k.added;
  log =
      k.log
      ∙ ap (λ l. l ++ utf8 k.added) h.log
      ∙ append_assoc a.log_buffer (utf8 h.added) (utf8 k.added)
      ∙ ap (λ l. a.log_buffer ++ l) (sym (utf8-append h.added k.added));
}

-- A job that is there is there later, as the same job.
pub record Kept (s t : MockState) : Type 0 where
  pub keep :
      (id : Text) (job : MockJob)
      → get id s.jobs ≡ some job
      → (later : MockJob) × (get id t.jobs ≡ some later) × Continues job later

same-Kept : (s t : MockState) → t.jobs ≡ s.jobs → Kept s t
same-Kept s t e = record { keep = λ id job h. (job, ap (get id) e ∙ h, Continues-refl job) }

update-Kept :
    (k : Text) (f : MockJob → MockJob) (s : MockState)
    → ((job : MockJob) → Continues job (f job))
    → Kept s (update_job k f s)
update-Kept k f s c = record {
  keep = λ id job h. elim (Bool-cases (text_eq k id)) [
    | inl e ↦ (f job, ground (arith, get-modify k id f s.jobs), c job)
    | inr e ↦ (job, ground (arith, get-modify k id f s.jobs), Continues-refl job)
  ];
}

insert-Kept :
    (k : Text) (new : MockJob) (s : MockState)
    → get k s.jobs ≡ none
    → Kept s (record s { jobs = insert k new s.jobs })
insert-Kept k new s fresh = record {
  keep = λ id job h. elim (Bool-cases (text_eq k id)) [
    | inl e ↦ absurd (ground (arith, text_eq_iff k id))
    | inr e ↦ (job, ground (arith, get-insert k id new s.jobs), Continues-refl job)
  ];
}

pub Kept-trans : {s t u : MockState} → Kept s t → Kept t u → Kept s u
Kept-trans h k = record {
  keep = λ id job e.
      let (j, f, c) = h.keep id job e in
      let (j', g, d) = k.keep id j f in (j', g, Continues-trans c d);
}

-- Changes of the state and the schedule, and text at the end of the log.
move-Continues :
    (job : MockJob) (state : JobState) (ts : List ScheduledTransition)
    → Continues job (record job { state = state; transitions = ts })
unfolding utf8
move-Continues job state ts = record {
  same_id = refl;
  same_key = refl;
  same_run = refl;
  same_spec = refl;
  same_lease = refl;
  same_birth = refl;
  added = [];
  log = sym (append-nil job.log_buffer);
}

log-Continues :
    (job : MockJob) (state : JobState) (more : Text)
    → Continues job (record job { state = state; log_buffer = job.log_buffer ++ utf8 more })
log-Continues job state more = record {
  same_id = refl;
  same_key = refl;
  same_run = refl;
  same_spec = refl;
  same_lease = refl;
  same_birth = refl;
  added = more;
  log = refl;
}

set_job_state-Kept :
    (k : Text) (state : JobState) (s : MockState) → Kept s (set_job_state k state s)
unfolding set_job_state
set_job_state-Kept k state s = update-Kept k _ s (λ job. move-Continues job state job.transitions)

append_job_log-Kept : (k content : Text) (s : MockState) → Kept s (append_job_log k content s)
unfolding append_job_log
append_job_log-Kept k content s = update-Kept k _ s (λ job. log-Continues job job.state content)

schedule_transitions-Kept :
    (now : ℕ) (k : Text) (ts : List (JobState × ℕ)) (s : MockState)
    → Kept s (schedule_transitions now k ts s)
unfolding schedule_transitions
schedule_transitions-Kept now k ts s = update-Kept k _ s (λ job. move-Continues job job.state _)

create_job-Kept :
    (now : ℕ) (spec : JobSpec) (lease : Option Text) (s : MockState)
    → get spec.job_id s.jobs ≡ none
    → Kept s (create_job_with_lease now spec lease s).0
unfolding create_job_with_lease
create_job-Kept now spec lease s new = insert-Kept spec.job_id _ s new

start-Kept :
    (now : ℕ) (req : SubmitRequest) (s : MockState)
    → get req.job.job_id s.jobs ≡ none
    → Kept s (start now req s)
unfolding start create_job_with_lease
start-Kept now req s new =
    let id = req.job.job_id in
    let created = (create_job_with_lease now req.job req.lease_id s).0 in
    let final = unwrap_or s.failure_injection.force_job_state JobState.succeeded in
    let plan : List (JobState × ℕ) = (JobState.running, 10) ∷ (final, 100) ∷ [] in
    let a = create_job-Kept now req.job req.lease_id s new in
    let b = schedule_transitions-Kept now id plan created in
    let c =
      append_job_log-Kept id (start_text req.job) (schedule_transitions now id plan created) in
    Kept-trans a (Kept-trans b c)

Step-Kept : (config : WorkerConfig) (now : ℕ) {s t : MockState} → Step config now s t → Kept s t
unfolding create_lease generate_id release_lease add_source cleanup_expired_leases stop
    process_transitions process_job
Step-Kept config now (reserved s ttl h) = same-Kept s _ refl
Step-Kept config now (released s id) = same-Kept s _ refl
Step-Kept config now (started s req a b c) = start-Kept now req s c
Step-Kept config now (processed s id) = update-Kept id _ s (λ job. move-Continues job _ _)
Step-Kept config now (stopped s id job h o) =
    Kept-trans (set_job_state-Kept id JobState.cancel_requested s)
      (Kept-trans (set_job_state-Kept id JobState.cancelled _) (append_job_log-Kept id _ _))
Step-Kept config now (stored s sha content size h) = same-Kept s _ refl
Step-Kept config now (swept s) = same-Kept s _ refl
Step-Kept config now (backstopped s id) =
    update-Kept id _ s (λ job. log-Continues job JobState.cancelled _)

pub Changes-Kept :
    (config : WorkerConfig) (now : ℕ) {s t : MockState} → Changes config now s t → Kept s t
Changes-Kept config now {s} here = same-Kept s s refl
Changes-Kept config now (next r st) =
    Kept-trans (Changes-Kept config now r) (Step-Kept config now st)

pub Kept-refl : (s : MockState) → Kept s s
Kept-refl s = same-Kept s s refl
