-- ===== src/State/Job/Examples.antt =====
-- The theorems on the records of src/state/job_state.rs at small histories.
use rch_mac.Base.{◌≡◌, ◌⊎◌, none, some, text}
use rch_mac.State.Counter.{next_seq}
use rch_mac.State.Job as Job
use rch_mac.State.Job.Laws as JobLaws
use rch_mac.State.Job.Laws.{◌⟶◌}

abbrev a_job : Job.JobStateData
a_job = record {
  schema_version = 1;
  schema_id = text "rch-xcode/job_state@1";
  run_id = text "run";
  job_id = text "job";
  job_key = text "key";
  state = Job.JobState.running;
  created_at = 5;
  updated_at = 6;
  seq = 1;
}

job_transition_cases_example :
    let o = Job.transition Job.JobState.failed 7 2 a_job in
    ((a_job.state ⟶ Job.JobState.failed)
      × (o.error ≡ none)
      × (o.job ≡ record a_job { state = Job.JobState.failed; updated_at = 7; seq = (next_seq 2).0 })
      × (o.counter ≡ (next_seq 2).1))
    ⊎ ((¬ (a_job.state ⟶ Job.JobState.failed))
        × (o.error ≡ some (Job.invalid_transition a_job.state Job.JobState.failed))
        × (o.job ≡ a_job)
        × (o.counter ≡ 2))
job_transition_cases_example = JobLaws.job_transition_cases Job.JobState.failed 7 2 a_job
