-- ===== src/Summary/Agreement.antt =====
-- The exit code of a run, and the summary of a run against the execution state of src/run/mod.rs.
use mathlib.Core.Option.{some-injective}
use rch_mac.Base.{
  ℕ, true, false, Option, none, some, is_some, unwrap_or, Text, List, [], ◌∷◌, length, any, find?,
  All, map, subst, ◌≤◌, ◌≡◌, ◌≢◌, ◌↔◌, refl, arith, Option-cases, Bool-cases, inl, inr,
}
use rch_mac.Base.Max.{pos}
use rch_mac.Run.{Status, StepResult, counts_as_failure}
use rch_mac.Summary.{
  ExitCode, FailureKind, FailureSubkind, JobSummary, as_i32, from_i32, exit_code, job_success,
  job_failure, job_rejected, job_cancelled,
}
use rch_mac.Summary.RunSummary.{code_of, from_job_summaries}
use rch_mac.Summary.Laws.{from_i32_iff, has, count, overall, from_job_summaries-overall}

-- A summary as the constructors of job_summary.rs make them.
pub data Made : JobSummary → Type 0 where
  success : (run job key : Text) (ms : ℕ) → Made (job_success run job key ms)
  failure :
      (run job key human : Text) (kind : FailureKind) (sub : Option FailureSubkind) (ms : ℕ)
      → Made (job_failure run job key kind sub human ms)
  rejected : (run job reason : Text) → Made (job_rejected run job reason)
  cancelled : (run job key : Text) (ms : ℕ) → Made (job_cancelled run job key ms)

failing-code :
    (k : FailureKind)
    → unwrap_or (from_i32 (as_i32 (exit_code k))) ExitCode.executor ≢ ExitCode.success
unfolding exit_code
failing-code k = let c = exit_code k in let r = (from_i32_iff (as_i32 c) c).1 refl in ground arith

-- A job that failed does not have the code of success.
Made-code_of : {j : JobSummary} → Made j → has Status.failed j ≡ true → code_of j ≢ ExitCode.success
unfolding job_success job_failure job_rejected job_cancelled
Made-code_of (success run job key ms) h = absurd (ground arith)
Made-code_of (rejected run job reason) h = absurd (ground arith)
Made-code_of (cancelled run job key ms) h = absurd (ground arith)
Made-code_of (failure run job key human kind sub ms) h = failing-code kind

first-code_of :
    (js : List JobSummary) (j : JobSummary)
    → All Made js
    → find? (has Status.failed) js ≡ some j
    → code_of j ≢ ExitCode.success
first-code_of [] j m h = absurd (ground arith)
first-code_of (x ∷ js) j m h = elim (Bool-cases (has Status.failed x)) [
  | inl e ↦
      let same : x ≡ j = some-injective _ _ (rw (e, find?) at h) in
      subst (λ y. code_of y ≢ ExitCode.success) same (Made-code_of m.0 e)
  | inr e ↦ first-code_of js j m.1 (rw (e, find?) at h)
]

as_i32-zero : (c : ExitCode) → (as_i32 c ≡ pos 0) ↔ (c ≡ ExitCode.success)
unfolding as_i32
as_i32-zero c = ground arith

count-le : (js : List JobSummary) → count Status.success js ≤ length js
count-le [] = omega arith
count-le (j ∷ js) = let rest = count-le js in ground arith

count-length :
    (js : List JobSummary)
    → (count Status.success js ≡ length js) ↔ (
        (any (has Status.rejected) js ≡ false)
        × (any (has Status.cancelled) js ≡ false)
        × (find? (has Status.failed) js ≡ none))
count-length [] = (λ h. (refl, refl, refl), λ h. refl)
count-length (j ∷ js) =
    let le = count-le js in let rest = count-length js in (λ h. ground arith, λ h. ground arith)

-- The exit code of a run whose jobs are summarised by the constructors is 0 exactly when every job
-- succeeded.
from_job_summaries-zero :
    (run : Text) (js : List JobSummary) (ms : ℕ)
    → All Made js
    → ((from_job_summaries run js ms).exit_code ≡ pos 0) ↔ (count Status.success js ≡ length js)
from_job_summaries-zero run js ms m =
    let told = (from_job_summaries-overall run js ms).1 in
    let zero = as_i32-zero (overall js).1 in
    let all = count-length js in
    elim (Option-cases (find? (has Status.failed) js)) [
      | inl e ↦ (λ h. ground arith, λ h. ground arith)
      | inr (j, e) ↦ let bad = first-code_of js j m e in (λ h. ground arith, λ h. ground arith)
    ]

-- The statuses of the results, without those of rejected and cancelled steps.
abbrev pub Ran : StepResult → Type 0
Ran r = (r.status ≢ Status.rejected) × (r.status ≢ Status.cancelled) × (r.skipped ≡ false)

abbrev pub statuses : List StepResult → List Status
statuses rs = map (λ (r : StepResult). r.status) rs

any-statuses :
    (js : List JobSummary) (rs : List StepResult)
    → All Ran rs
    → map (λ (j : JobSummary). j.status) js ≡ statuses rs
    → (any (has Status.rejected) js ≡ false)
      × (any (has Status.cancelled) js ≡ false)
      × (is_some (find? (has Status.failed) js) ≡ any counts_as_failure rs)
any-statuses [] [] ran same = (refl, refl, refl)
any-statuses [] (r ∷ rs) ran same = absurd (ground arith)
any-statuses (j ∷ js) [] ran same = absurd (ground arith)
any-statuses (j ∷ js) (r ∷ rs) ran same =
    let rest = any-statuses js rs ran.1 (ground arith) in
    let head : j.status ≡ r.status = ground arith in (ground arith, ground arith, ground arith)

-- Where no step was rejected or cancelled, the summary of a run and its execution state agree: the
-- summary says failed exactly when a result counts as a failure.
from_job_summaries-any :
    (run : Text) (js : List JobSummary) (ms : ℕ) (rs : List StepResult)
    → All Ran rs
    → map (λ (j : JobSummary). j.status) js ≡ statuses rs
    → ((from_job_summaries run js ms).status ≡ Status.failed) ↔ (any counts_as_failure rs ≡ true)
from_job_summaries-any run js ms rs ran same =
    let told = (from_job_summaries-overall run js ms).0 in
    let (no_rejected, no_cancelled, failed) = any-statuses js rs ran same in
    elim (Option-cases (find? (has Status.failed) js)) [
      | inl e ↦ (λ h. ground arith, λ h. ground arith)
      | inr (j, e) ↦ (λ h. ground arith, λ h. ground arith)
    ]
