-- ===== src/Worker/Orphans.antt =====
-- `cancel_orphaned_jobs` of src/crates/rch-worker/src/mock_state.rs.
use rch_mac.Base.{
  ℕ, Bool, true, false, not, none, some, if◌then◌else◌, Text, text, List, [], ◌∷◌, ◌++◌, ◌&&◌, utf8,
  Dict,
}
use rch_mac.State.Job.{JobState}
use rch_mac.Worker.State.{MockJob, MockState, is_lease_valid, update_job}

abbrev pub is_live : JobState → Bool
is_live JobState.running = true
is_live JobState.queued = true
is_live JobState.cancel_requested = true
is_live _ = false

unfoldable pub lease_lost : ℕ → MockState → MockJob → Bool
lease_lost now s job = elim (job.lease_id) [
  | none ↦ false
  | some lease ↦ not (is_lease_valid now lease s)
]

unfoldable pub is_orphan : ℕ → MockState → MockJob → Bool
unfolding lease_lost
is_orphan now s job = is_live job.state && lease_lost now s job

unfoldable pub orphans : ℕ → MockState → Dict MockJob → List Text
orphans now s [] = []
orphans now s ((id, job) ∷ m) =
    let rest = orphans now s m in if is_orphan now s job then id ∷ rest else rest

abbrev pub backstop : Text → MockJob → MockJob
backstop id job = record job {
  state = JobState.cancelled;
  log_buffer =
      job.log_buffer
      ++ utf8 (text "\n=== Job " ++ id ++ text " cancelled: lease expired (backstop) ===\n");
}

unfoldable pub cancel_all : List Text → MockState → MockState
cancel_all [] s = s
cancel_all (id ∷ ids) s = cancel_all ids (update_job id (backstop id) s)

unfoldable pub cancel_orphaned_jobs : ℕ → MockState → MockState × List Text
unfolding orphans cancel_all
cancel_orphaned_jobs now s = let ids = orphans now s s.jobs in (cancel_all ids s, ids)
