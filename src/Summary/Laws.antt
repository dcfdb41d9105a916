-- ===== src/Summary/Laws.antt =====
-- What the summary of a run says of its jobs: src/summary/failure.rs and run_summary.rs.
use rch_mac.Base.{
  ℕ, suc, ◌+◌, Bool, true, false, ◌||◌, none, some, if◌then◌else◌, Text, List, [], ◌∷◌, length, any,
  find?, ◌≡◌, ◌↔◌, refl, arith, Option-cases, inl, inr,
}
use rch_mac.Base.Max.{ℤ, pos, negsuc}
use rch_mac.Run.{Status}
use rch_mac.Summary.{
  ExitCode, JobSummary, add_code, aggregated_code, aggregated_status, as_i32, from_i32,
}
use rch_mac.Summary.RunSummary.{Tally, no_tally, code_of, tally, tally_all, from_job_summaries}

-- A number is read as an exit code exactly when it is the number of that code.
pub from_i32_iff : (n : ℤ) (c : ExitCode) → (from_i32 n ≡ some c) ↔ (n ≡ as_i32 c)
unfolding from_i32 as_i32
from_i32_iff (pos n) c = ground arith
from_i32_iff (negsuc n) c = ground arith

abbrev pub is_status : Status → Status → Bool
is_status Status.success Status.success = true
is_status Status.failed Status.failed = true
is_status Status.rejected Status.rejected = true
is_status Status.cancelled Status.cancelled = true
is_status _ _ = false

abbrev pub has : Status → JobSummary → Bool
has st j = is_status st j.status

abbrev pub count : Status → List JobSummary → ℕ
count st [] = 0
count st (j ∷ js) = let rest = count st js in if has st j then suc rest else rest

-- The loop, from any start.
record Tallied (js : List JobSummary) (t u : Tally) : Type 0 where
  succeeded : u.succeeded ≡ count Status.success js + t.succeeded
  failed : u.failed ≡ count Status.failed js + t.failed
  cancelled : u.cancelled ≡ count Status.cancelled js + t.cancelled
  rejected : u.rejected ≡ count Status.rejected js + t.rejected
  any_rejected : u.codes.has_rejected ≡ t.codes.has_rejected || any (has Status.rejected) js
  any_cancelled : u.codes.has_cancelled ≡ t.codes.has_cancelled || any (has Status.cancelled) js
  first : u.codes.first_failure_code ≡ elim (t.codes.first_failure_code) [
    | some c ↦ some c
    | none ↦ elim (find? (has Status.failed) js) [ none ↦ none | some j ↦ some (code_of j) ]
  ]

tally-Tallied :
    (js : List JobSummary) (j : JobSummary) (t u : Tally)
    → Tallied js (tally j t) u
    → Tallied (j ∷ js) t u
unfolding tally add_code
tally-Tallied js j t u h = record {
  succeeded = let a = h.succeeded in ground arith;
  failed = let a = h.failed in ground arith;
  cancelled = let a = h.cancelled in ground arith;
  rejected = let a = h.rejected in ground arith;
  any_rejected = let a = h.any_rejected in ground arith;
  any_cancelled = let a = h.any_cancelled in ground arith;
  first = let a = h.first in ground arith;
}

tally_all-Tallied : (js : List JobSummary) (t : Tally) → Tallied js t (tally_all js t)
unfolding tally_all
tally_all-Tallied [] t = record {
  succeeded = omega arith;
  failed = omega arith;
  cancelled = omega arith;
  rejected = omega arith;
  any_rejected = ground arith;
  any_cancelled = ground arith;
  first = ground arith;
}
tally_all-Tallied (j ∷ js) t =
    tally-Tallied js j t (tally_all js (tally j t)) (tally_all-Tallied js (tally j t))

count-all :
    (js : List JobSummary)
    → count Status.success js
        + count Status.failed js
        + count Status.cancelled js
        + count Status.rejected js
      ≡ length js
count-all [] = refl
count-all (j ∷ js) = let rest = count-all js in ground arith

-- The counts of a run's summary are those of the statuses of its jobs, and add up to the number of
-- steps.
from_job_summaries_counts :
    (run : Text) (js : List JobSummary) (ms : ℕ)
    → let r = from_job_summaries run js ms in
      (r.steps_succeeded ≡ count Status.success js)
      × (r.steps_failed ≡ count Status.failed js)
      × (r.steps_cancelled ≡ count Status.cancelled js)
      × (r.steps_rejected ≡ count Status.rejected js)
      × (r.steps_succeeded + r.steps_failed + r.steps_cancelled + r.steps_rejected ≡ r.step_count)
unfolding from_job_summaries
from_job_summaries_counts run js ms =
    let h = tally_all-Tallied js no_tally in
    let a = h.succeeded in
    let b = h.failed in
    let c = h.cancelled in
    let d = h.rejected in
    let sum = count-all js in (ground arith, ground arith, ground arith, ground arith, ground arith)

-- The status and the code that the first of these to apply gives: a rejection, a cancellation, the
-- first failure, success.
abbrev pub overall : List JobSummary → Status × ExitCode
overall js =
    if any (has Status.rejected) js
    then (Status.rejected, ExitCode.classifier_rejected)
    else if any (has Status.cancelled) js
    then (Status.cancelled, ExitCode.cancelled)
    else elim (find? (has Status.failed) js) [
      | none ↦ (Status.success, ExitCode.success)
      | some j ↦ (Status.failed, code_of j)
    ]

-- A run is rejected when a job is rejected, else cancelled when a job is cancelled, else it fails
-- with the code of the first job that failed, else it succeeds.
pub from_job_summaries-overall :
    (run : Text) (js : List JobSummary) (ms : ℕ)
    → let r = from_job_summaries run js ms in
      (r.status ≡ (overall js).0) × (r.exit_code ≡ as_i32 (overall js).1)
unfolding from_job_summaries aggregated_status aggregated_code
from_job_summaries-overall run js ms =
    let h = tally_all-Tallied js no_tally in
    let a = h.any_rejected in
    let b = h.any_cancelled in
    let c = h.first in
    elim (Option-cases (find? (has Status.failed) js)) [
      | inl e ↦ (ground arith, ground arith)
      | inr (j, e) ↦ (ground arith, ground arith)
    ]
