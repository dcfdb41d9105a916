-- ===== src/Summary.antt =====
-- src/summary: exit codes, the summaries of jobs, and the summary of a run made of them.
pub mod RunSummary
pub mod Laws
pub mod Agreement
pub mod Examples
use rch_mac.Base.{
  ℕ, suc, ◌+◌, ◌==◌, Bool, true, false, Option, none, some, is_some, unwrap_or, if◌then◌else◌, Text,
  text, List, [], ◌∷◌, ◌++◌, length, decimal,
}
use rch_mac.Base.Max.{ℤ, pos, negsuc}
use rch_mac.Run.{Status}

-- failure.rs
pub data FailureKind : Type 0 where
  classifier_rejected ssh transfer executor xcodebuild mcp : FailureKind
  artifacts cancelled worker_incompatible bundler attestation worker_busy : FailureKind

pub data FailureSubkind : Type 0 where
  timeout_overall timeout_idle protocol_error size_exceeded : FailureSubkind
  integrity_mismatch feature_missing toolchain_changed protocol_drift : FailureSubkind

pub data ExitCode : Type 0 where
  success classifier_rejected ssh transfer executor xcodebuild_failed mcp_failed : ExitCode
  artifacts_failed cancelled worker_busy worker_incompatible bundler attestation : ExitCode

unfoldable pub default_exit_code : Status → ExitCode
default_exit_code Status.success = ExitCode.success
default_exit_code Status.failed = ExitCode.executor
default_exit_code Status.rejected = ExitCode.classifier_rejected
default_exit_code Status.cancelled = ExitCode.cancelled

abbrev pub is_failure : Status → Bool
is_failure Status.success = false
is_failure _ = true

unfoldable pub exit_code : FailureKind → ExitCode
exit_code FailureKind.classifier_rejected = ExitCode.classifier_rejected
exit_code FailureKind.ssh = ExitCode.ssh
exit_code FailureKind.transfer = ExitCode.transfer
exit_code FailureKind.executor = ExitCode.executor
exit_code FailureKind.xcodebuild = ExitCode.xcodebuild_failed
exit_code FailureKind.mcp = ExitCode.mcp_failed
exit_code FailureKind.artifacts = ExitCode.artifacts_failed
exit_code FailureKind.cancelled = ExitCode.cancelled
exit_code FailureKind.worker_busy = ExitCode.worker_busy
exit_code FailureKind.worker_incompatible = ExitCode.worker_incompatible
exit_code FailureKind.bundler = ExitCode.bundler
exit_code FailureKind.attestation = ExitCode.attestation

unfoldable pub as_i32 : ExitCode → ℤ
as_i32 ExitCode.success = pos 0
as_i32 ExitCode.classifier_rejected = pos 10
as_i32 ExitCode.ssh = pos 20
as_i32 ExitCode.transfer = pos 30
as_i32 ExitCode.executor = pos 40
as_i32 ExitCode.xcodebuild_failed = pos 50
as_i32 ExitCode.mcp_failed = pos 60
as_i32 ExitCode.artifacts_failed = pos 70
as_i32 ExitCode.cancelled = pos 80
as_i32 ExitCode.worker_busy = pos 90
as_i32 ExitCode.worker_incompatible = pos 91
as_i32 ExitCode.bundler = pos 92
as_i32 ExitCode.attestation = pos 93

unfoldable pub from_i32 : ℤ → Option ExitCode
from_i32 (negsuc n) = none
from_i32 (pos n) =
    if n == 0
    then some ExitCode.success
    else if n == 10
    then some ExitCode.classifier_rejected
    else if n == 20
    then some ExitCode.ssh
    else if n == 30
    then some ExitCode.transfer
    else if n == 40
    then some ExitCode.executor
    else if n == 50
    then some ExitCode.xcodebuild_failed
    else if n == 60
    then some ExitCode.mcp_failed
    else if n == 70
    then some ExitCode.artifacts_failed
    else if n == 80
    then some ExitCode.cancelled
    else if n == 90
    then some ExitCode.worker_busy
    else if n == 91
    then some ExitCode.worker_incompatible
    else if n == 92
    then some ExitCode.bundler
    else if n == 93
    then some ExitCode.attestation
    else none

-- `ExitCodeAggregator`, its methods under `Aggregator`.
pub record ExitCodeAggregator : Type 0 where
  pub has_rejected : Bool
  pub has_cancelled : Bool
  pub first_failure_code : Option ExitCode

abbrev pub no_codes : ExitCodeAggregator
no_codes = record { has_rejected = false; has_cancelled = false; first_failure_code = none }

unfoldable pub add_code : Status → ExitCode → ExitCodeAggregator → ExitCodeAggregator
add_code Status.rejected c a = record a { has_rejected = true }
add_code Status.cancelled c a = record a { has_cancelled = true }
add_code Status.failed c a =
    if is_some a.first_failure_code then a else record a { first_failure_code = some c }
add_code Status.success c a = a

unfoldable pub aggregated_status : ExitCodeAggregator → Status
aggregated_status a =
    if a.has_rejected
    then Status.rejected
    else if a.has_cancelled
    then Status.cancelled
    else if is_some a.first_failure_code
    then Status.failed
    else Status.success

unfoldable pub aggregated_code : ExitCodeAggregator → ExitCode
aggregated_code a =
    if a.has_rejected
    then ExitCode.classifier_rejected
    else if a.has_cancelled
    then ExitCode.cancelled
    else unwrap_or a.first_failure_code ExitCode.success

-- job_summary.rs, the fields that are computed with; the times, the texts of the backend, the
-- artifact profile and the cache are left out.
pub record JobSummary : Type 0 where
  pub run_id : Text
  pub job_id : Text
  pub job_key : Option Text
  pub status : Status
  pub failure_kind : Option FailureKind
  pub failure_subkind : Option FailureSubkind
  pub exit_code : ℤ
  pub human_summary : Text
  pub duration_ms : ℕ

unfoldable pub job_success : (run job key : Text) → ℕ → JobSummary
unfolding as_i32
job_success run job key ms = record {
  run_id = run;
  job_id = job;
  job_key = some key;
  status = Status.success;
  failure_kind = none;
  failure_subkind = none;
  exit_code = as_i32 ExitCode.success;
  human_summary = text "Build succeeded";
  duration_ms = ms;
}

unfoldable pub job_failure :
    (run job key : Text) → FailureKind → Option FailureSubkind → Text → ℕ → JobSummary
unfolding as_i32 exit_code
job_failure run job key kind subkind human ms = record {
  run_id = run;
  job_id = job;
  job_key = some key;
  status = Status.failed;
  failure_kind = some kind;
  failure_subkind = subkind;
  exit_code = as_i32 (exit_code kind);
  human_summary = human;
  duration_ms = ms;
}

unfoldable pub job_rejected : (run job reason : Text) → JobSummary
unfolding as_i32
job_rejected run job reason = record {
  run_id = run;
  job_id = job;
  job_key = none;
  status = Status.rejected;
  failure_kind = some FailureKind.classifier_rejected;
  failure_subkind = none;
  exit_code = as_i32 ExitCode.classifier_rejected;
  human_summary = reason;
  duration_ms = 0;
}

unfoldable pub job_cancelled : (run job key : Text) → ℕ → JobSummary
unfolding as_i32
job_cancelled run job key ms = record {
  run_id = run;
  job_id = job;
  job_key = some key;
  status = Status.cancelled;
  failure_kind = some FailureKind.cancelled;
  failure_subkind = none;
  exit_code = as_i32 ExitCode.cancelled;
  human_summary = text "Job cancelled";
  duration_ms = ms;
}
