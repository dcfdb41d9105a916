-- ===== src/Worker/State.antt =====
-- src/crates/rch-worker/src/mock_state.rs: leases, jobs and sources. `now` is the answer of
-- `Instant::now` for the whole of one request; times and durations are in milliseconds.
use rch_mac.Base.{
  ℕ, ◌+◌, ◌-◌, ◌*◌, ◌%◌, ◌^◌, ltb, leb, Bool, true, false, ◌&&◌, not, Option, none, some, is_some,
  if◌then◌else◌, Text, text, List, [], ◌∷◌, ◌++◌, map, length, drop, Dict, get, insert, remove,
  modify, contains_key, count_values, retain, hex8, utf8,
}
use rch_mac.State.Job.{JobState}
use rch_mac.Worker.Protocol.{JobSpec}

pub record Lease : Type 0 where
  pub lease_id : Text
  pub created_at : ℕ
  pub ttl : ℕ

unfoldable pub is_expired : ℕ → Lease → Bool
is_expired now l = ltb l.ttl (now - l.created_at)

pub record ScheduledTransition : Type 0 where
  pub to_state : JobState
  pub at : ℕ

pub record MockJob : Type 0 where
  pub job_id : Text
  pub job_key : Text
  pub run_id : Text
  pub state : JobState
  pub spec : JobSpec
  pub log_buffer : List ℕ
  pub log_cursor : ℕ
  pub created_at : ℕ
  pub transitions : List ScheduledTransition
  pub lease_id : Option Text

pub record SourceEntry : Type 0 where
  pub source_sha256 : Text
  pub content_sha256 : Text
  pub size : ℕ
  pub created_at : ℕ

pub record FailureInjection : Type 0 where
  pub reserve_busy : Option ℕ
  pub lease_expired : Bool
  pub source_missing : Bool
  pub delays : Dict ℕ
  pub force_job_state : Option JobState

abbrev pub no_injection : FailureInjection
no_injection = record {
  reserve_busy = none;
  lease_expired = false;
  source_missing = false;
  delays = [];
  force_job_state = none;
}

pub record MockState : Type 0 where
  pub leases : Dict Lease
  pub jobs : Dict MockJob
  pub sources : Dict SourceEntry
  pub failure_injection : FailureInjection
  pub id_counter : ℕ

abbrev pub new : MockState
new = record {
  leases = [];
  jobs = [];
  sources = [];
  failure_injection = no_injection;
  id_counter = 0;
}

unfoldable pub set_failure_injection : FailureInjection → MockState → MockState
set_failure_injection i s = record s { failure_injection = i }

-- The counter is a `u64`, which wraps around in a release build.
unfoldable pub generate_id : Text → MockState → MockState × Text
generate_id prefix s =
    let n = (s.id_counter + 1) % 2 ^ 64 in
    (record s { id_counter = n }, prefix ++ text "-" ++ hex8 n)

unfoldable pub create_lease : ℕ → ℕ → MockState → MockState × Lease
unfolding generate_id
create_lease now ttl_seconds s =
    let (s', id) = generate_id (text "lease") s in
    let lease : Lease = record { lease_id = id; created_at = now; ttl = ttl_seconds * 1000 } in
    (record s' { leases = insert id lease s'.leases }, lease)

unfoldable pub release_lease : Text → MockState → MockState × Bool
release_lease id s = (record s { leases = remove id s.leases }, is_some (get id s.leases))

unfoldable pub is_lease_valid : ℕ → Text → MockState → Bool
is_lease_valid now id s = elim (get id s.leases) [ none ↦ false | some l ↦ not (is_expired now l) ]

unfoldable pub active_lease_count : ℕ → MockState → ℕ
active_lease_count now s = count_values (λ l. not (is_expired now l)) s.leases

unfoldable pub create_job_with_lease : ℕ → JobSpec → Option Text → MockState → MockState × MockJob
create_job_with_lease now spec lease s =
    let job : MockJob = record {
      job_id = spec.job_id;
      job_key = spec.job_key;
      run_id = spec.run_id;
      state = JobState.queued;
      spec = spec;
      log_buffer = [];
      log_cursor = 0;
      created_at = now;
      transitions = [];
      lease_id = lease;
    } in
    (record s { jobs = insert spec.job_id job s.jobs }, job)

abbrev pub get_job : Text → MockState → Option MockJob
get_job id s = get id s.jobs

-- An update of the job with an id, if there is one.
abbrev pub update_job : Text → (MockJob → MockJob) → MockState → MockState
update_job id f s = record s { jobs = modify id f s.jobs }

unfoldable pub set_job_state : Text → JobState → MockState → MockState
set_job_state id state = update_job id (λ job. record job { state = state })

unfoldable pub append_job_log : Text → Text → MockState → MockState
append_job_log id content =
    update_job id (λ job. record job { log_buffer = job.log_buffer ++ utf8 content })

-- A slice may begin where a character begins and at the end of the buffer.
unfoldable pub is_char_boundary : ℕ → List ℕ → Bool
is_char_boundary i log = elim (drop i log) [ [] ↦ true | b ∷ _ ↦ not (leb 128 b && ltb b 192) ]

-- The chunk is missing where the slice panics.
unfoldable pub job_log : MockJob → ℕ → Option (List ℕ) × ℕ
job_log job cursor =
    let log = job.log_buffer in
    (
      if ltb cursor (length log)
          then if is_char_boundary cursor log then some (drop cursor log) else none
          else some [],
      length log,
    )

unfoldable pub get_job_log : Text → ℕ → MockState → Option (Option (List ℕ) × ℕ)
unfolding job_log
get_job_log id cursor s = elim (get id s.jobs) [
  | none ↦ none
  | some job ↦ some (job_log job cursor)
]

unfoldable pub schedule_transitions : ℕ → Text → List (JobState × ℕ) → MockState → MockState
schedule_transitions now id ts =
    update_job id
      (λ job. record job { transitions = map (λ t. record { to_state = t.0; at = now + t.1 }) ts })

-- The loop of `process_transitions`: the state and what is left of the schedule.
unfoldable pub due : ℕ → JobState → List ScheduledTransition → JobState × List ScheduledTransition
due now state [] = (state, [])
due now state (t ∷ ts) =
    let rest = due now t.to_state ts in if leb t.at now then rest else (state, t ∷ ts)

unfoldable pub process_job : ℕ → MockJob → MockJob
unfolding due
process_job now job =
    let (state, ts) = due now job.state job.transitions in
    record job { state = state; transitions = ts }

unfoldable pub process_transitions : ℕ → Text → MockState → MockState
unfolding process_job
process_transitions now id = update_job id (process_job now)

abbrev pub is_running : MockJob → Bool
is_running job = elim (job.state) [
  | JobState.running ↦ true
  | JobState.cancel_requested ↦ true
  | _ ↦ false
]

unfoldable pub running_job_count : MockState → ℕ
running_job_count s = count_values is_running s.jobs

unfoldable pub has_source : Text → MockState → Bool
has_source sha s = contains_key sha s.sources

unfoldable pub add_source : ℕ → Text → Text → ℕ → MockState → MockState
add_source now sha content size s =
    let entry : SourceEntry = record {
      source_sha256 = sha;
      content_sha256 = content;
      size = size;
      created_at = now;
    } in
    record s { sources = insert sha entry s.sources }

unfoldable pub cleanup_expired_leases : ℕ → MockState → MockState × ℕ
unfolding is_expired
cleanup_expired_leases now s = (
  record s { leases = retain (λ l. not (is_expired now l)) s.leases },
  count_values (is_expired now) s.leases,
)
