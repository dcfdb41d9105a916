-- ===== src/Worker/Resubmit.antt =====
-- A second submission under one job id, and a submission with a lease that was released:
-- src/crates/rch-worker/src/handlers/submit.rs and release.rs.
use rch_mac.Base.{
  ℕ, none, some, Text, text_eq, text_eq_iff, get, get-remove, Bool-cases, inl, inr, ◌≡◌, refl, sym,
  ◌∙◌, ap, subst, arith, Result, ok, err, ◌↔◌,
}
use rch_mac.Worker.Protocol.{JobSpec, SubmitRequest, SubmitResponse, RpcError}
use rch_mac.Worker.State.{MockJob, MockState, release_lease, get_job, is_lease_valid}
use rch_mac.Worker.Handlers.{
  WorkerConfig, submit, submit_checked, resubmit, check_lease, check_source, release,
}
use rch_mac.Worker.Jobs.{started_job, submit-get}

submit_known :
    (config : WorkerConfig) (now : ℕ) (req : SubmitRequest) (t : MockState) (job : MockJob)
    → check_lease now req.lease_id t ≡ none
    → check_source req.job t ≡ none
    → get req.job.job_id t.jobs ≡ some job
    → submit config now req t ≡ (t, resubmit req.job job)
unfolding submit submit_checked
submit_known config now req t job lease source found = ground arith

resubmit_iff :
    (spec : JobSpec) (job : MockJob) (id : Text)
    → job.job_id ≡ id
    → ((a : SubmitResponse) × (resubmit spec job ≡ ok a) × (a.job_id ≡ id))
      ↔ (spec.job_key ≡ job.job_key)
unfolding resubmit
resubmit_iff spec job id e =
    let keys = text_eq_iff job.job_key spec.job_key in
    (
      λ (a, h, q). elim (Bool-cases (text_eq job.job_key spec.job_key)) [
        | inl k ↦ sym (keys.0 k)
        | inr k ↦ absurd (ground arith)
      ],
      λ k.
          let q = keys.1 (sym k) in
          (record { job_id = job.job_id; state = job.state }, ground arith, e),
    )

submit-job_id :
    (config : WorkerConfig) (now : ℕ) (req : SubmitRequest) (s : MockState) (r : SubmitResponse)
    → get_job req.job.job_id s ≡ none
    → (submit config now req s).1 ≡ ok r
    → req.job.job_id ≡ r.job_id
unfolding submit submit_checked
submit-job_id config now req s r n h = ground arith

-- Two submissions under one job id, the first of a new job and accepted, the second with a lease and
-- a source that pass: the second changes nothing, is accepted exactly when the job keys agree, and
-- then names the same job.
pub submit_twice :
    (config : WorkerConfig) (now later : ℕ) (req again : SubmitRequest) (s : MockState)
    (r : SubmitResponse)
    → get_job req.job.job_id s ≡ none
    → (submit config now req s).1 ≡ ok r
    → again.job.job_id ≡ req.job.job_id
    → check_lease later again.lease_id (submit config now req s).0 ≡ none
    → check_source again.job (submit config now req s).0 ≡ none
    → let t = (submit config now req s).0 in
      ((submit config later again t).0 ≡ t)
      × (((a : SubmitResponse) × ((submit config later again t).1 ≡ ok a) × (a.job_id ≡ r.job_id))
          ↔ (again.job.job_key ≡ req.job.job_key))
unfolding submit submit_checked resubmit
submit_twice config now later req again s r n h same lease source =
    let t = (submit config now req s).0 in
    let found : get again.job.job_id t.jobs ≡ some (started_job now req s) =
      ap (λ i. get i t.jobs) same ∙ submit-get config now req s r n h in
    let out = submit_known config later again t (started_job now req s) lease source found in
    let keys =
      resubmit_iff again.job (started_job now req s) r.job_id
        (submit-job_id config now req s r n h) in
    (
      ap (λ p. p.0) out,
      subst
          (λ (w : Result SubmitResponse RpcError).
            ((a : SubmitResponse) × (w ≡ ok a) × (a.job_id ≡ r.job_id))
            ↔ (again.job.job_key ≡ req.job.job_key))
          (ap (λ p. p.1) (sym out)) keys,
    )

-- Once a lease is released, no submission with it is accepted, and none changes the state.
release-submit :
    (config : WorkerConfig) (now : ℕ) (req : SubmitRequest) (s : MockState) (lease : Text)
    → req.lease_id ≡ some lease
    → let t = (release (record { lease_id = lease }) s).0 in
      submit config now req t ≡ (t, err (RpcError.lease_expired lease))
unfolding release release_lease submit check_lease is_lease_valid
release-submit config now req s lease e =
    let gone = get-remove lease lease s.leases in
    let same = (text_eq_iff lease lease).1 refl in ground arith
