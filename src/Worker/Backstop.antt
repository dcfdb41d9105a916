-- ===== src/Worker/Backstop.antt =====
-- `cancel_orphaned_jobs` cancels the orphans and nothing else.
use rch_mac.Base.{
  ℕ, true, false, Option, none, some, Text, text_eq, text_eq_iff, contains, List, [], ◌∷◌, get,
  get-modify, Dict, IsDict, Bool-cases, inl, inr, ◌⊎◌, ◌≡◌, refl, ◌∙◌, ap, arith,
}
use rch_mac.State.Job.{JobState}
use rch_mac.Worker.State.{MockJob, MockState, update_job}
use rch_mac.Worker.Orphans.{is_orphan, orphans, backstop, cancel_all, cancel_orphaned_jobs}

-- The list names exactly the orphans.
orphans-contains :
    (now : ℕ) (s : MockState) (m : Dict MockJob) (k : Text)
    → IsDict m
    → contains (orphans now s m) k
      ≡ elim (get k m) [ none ↦ false | some job ↦ is_orphan now s job ]
unfolding orphans contains get
orphans-contains now s [] k h = refl
orphans-contains now s ((id, job) ∷ m) k h =
    let rest = orphans-contains now s m k h.1 in ground (arith, text_eq_iff id k)

cancel_all-other :
    (ids : List Text) (s : MockState) (k : Text)
    → contains ids k ≡ false
    → get k (cancel_all ids s).jobs ≡ get k s.jobs
unfolding cancel_all contains
cancel_all-other [] s k h = refl
cancel_all-other (id ∷ ids) s k h =
    let rest = cancel_all-other ids (update_job id (backstop id) s) k (ground arith) in
    ground (arith, get-modify id k (backstop id) s.jobs)

-- Where there is a job, it is cancelled at the end if its id is listed or it was so before.
cancel_all-state :
    (ids : List Text) (s : MockState) (k : Text) (job : MockJob)
    → get k s.jobs ≡ some job
    → (contains ids k ≡ true) ⊎ (job.state ≡ JobState.cancelled)
    → (later : MockJob) × (get k (cancel_all ids s).jobs ≡ some later)
      × (later.state ≡ JobState.cancelled)
unfolding cancel_all contains
cancel_all-state [] s k job h (inl c) = absurd (ground arith)
cancel_all-state [] s k job h (inr e) = (job, h, e)
cancel_all-state (id ∷ ids) s k job h c =
    let t = update_job id (backstop id) s in
    let here = get-modify id k (backstop id) s.jobs in
    elim (Bool-cases (text_eq id k)) [
      | inl e ↦ cancel_all-state ids t k (backstop id job) (ground arith) (inr refl)
      | inr e ↦ cancel_all-state ids t k job (ground arith) (still c e)
    ]
  where
    still :
        (contains (id ∷ ids) k ≡ true) ⊎ (job.state ≡ JobState.cancelled)
        → text_eq id k ≡ false
        → (contains ids k ≡ true) ⊎ (job.state ≡ JobState.cancelled)
    still (inl q) e = inl (ground arith)
    still (inr q) e = inr q

cancel_all-leases : (ids : List Text) (s : MockState) → (cancel_all ids s).leases ≡ s.leases
unfolding cancel_all
cancel_all-leases [] s = refl
cancel_all-leases (id ∷ ids) s = cancel_all-leases ids (update_job id (backstop id) s)

-- The backstop names exactly the live jobs whose lease is gone, each of them is cancelled
-- afterwards, every other job stands as it stood, and no lease is touched.
pub cancel_orphaned_jobs-exact :
    (now : ℕ) (s : MockState) (k : Text) (job : MockJob)
    → IsDict s.jobs
    → get k s.jobs ≡ some job
    → let (t, ids) = cancel_orphaned_jobs now s in
      (contains ids k ≡ is_orphan now s job)
      × (is_orphan now s job ≡ true
          → (later : MockJob) × (get k t.jobs ≡ some later) × (later.state ≡ JobState.cancelled))
      × (is_orphan now s job ≡ false → get k t.jobs ≡ some job)
      × (t.leases ≡ s.leases)
unfolding cancel_orphaned_jobs
cancel_orphaned_jobs-exact now s k job d h =
    let ids = orphans now s s.jobs in
    let listed : contains ids k ≡ is_orphan now s job =
      orphans-contains now s s.jobs k d
      ∙ ap (λ (o : Option MockJob). elim o [ none ↦ false | some j ↦ is_orphan now s j ]) h in
    (
      listed,
      λ o. cancel_all-state ids s k job h (inl (listed ∙ o)),
      λ o. cancel_all-other ids s k (listed ∙ o) ∙ h,
      cancel_all-leases ids s,
    )
