-- ===== src/Summary/RunSummary.antt =====
-- src/summary/run_summary.rs: the summary of a run.
use rch_mac.Base.{
  ℕ, suc, ◌+◌, ◌==◌, unwrap_or, if◌then◌else◌, Text, text, List, [], ◌∷◌, ◌++◌, length, decimal,
}
use rch_mac.Base.Max.{ℤ}
use rch_mac.Run.{Status}
use rch_mac.Summary.{
  ExitCode, ExitCodeAggregator, JobSummary, add_code, aggregated_code, aggregated_status, as_i32,
  from_i32, no_codes,
}

pub record RunSummary : Type 0 where
  pub run_id : Text
  pub status : Status
  pub exit_code : ℤ
  pub step_count : ℕ
  pub steps_succeeded : ℕ
  pub steps_failed : ℕ
  pub steps_cancelled : ℕ
  pub steps_skipped : ℕ
  pub steps_rejected : ℕ
  pub duration_ms : ℕ
  pub human_summary : Text

unfoldable pub generate_human_summary :
    Status → (steps succeeded failed cancelled rejected : ℕ) → Text
generate_human_summary Status.success n s f c r =
    if n == 1
    then text "Run succeeded"
    else text "Run succeeded: " ++ decimal s ++ text "/" ++ decimal n ++ text " steps passed"
generate_human_summary Status.failed n s f c r =
    if n == 1
    then text "Run failed"
    else text "Run failed: "
      ++ decimal s
      ++ text " succeeded, "
      ++ decimal f
      ++ text " failed, "
      ++ decimal c
      ++ text " cancelled"
generate_human_summary Status.cancelled n s f c r =
    text "Run cancelled: " ++ decimal c ++ text " step(s) cancelled"
generate_human_summary Status.rejected n s f c r =
    text "Run rejected: " ++ decimal r ++ text " step(s) rejected by classifier"

-- The variables of the loop of `from_job_summaries`.
pub record Tally : Type 0 where
  pub codes : ExitCodeAggregator
  pub succeeded : ℕ
  pub failed : ℕ
  pub cancelled : ℕ
  pub rejected : ℕ

abbrev pub no_tally : Tally
no_tally = record { codes = no_codes; succeeded = 0; failed = 0; cancelled = 0; rejected = 0 }

abbrev pub code_of : JobSummary → ExitCode
code_of j = unwrap_or (from_i32 j.exit_code) ExitCode.executor

abbrev bump : Status → Tally → Tally
bump Status.success t = record t { succeeded = suc t.succeeded }
bump Status.failed t = record t { failed = suc t.failed }
bump Status.cancelled t = record t { cancelled = suc t.cancelled }
bump Status.rejected t = record t { rejected = suc t.rejected }

unfoldable pub tally : JobSummary → Tally → Tally
unfolding add_code
tally j t = bump j.status (record t { codes = add_code j.status (code_of j) t.codes })

unfoldable pub tally_all : List JobSummary → Tally → Tally
unfolding tally
tally_all [] t = t
tally_all (j ∷ js) t = tally_all js (tally j t)

unfoldable pub from_job_summaries : Text → List JobSummary → ℕ → RunSummary
unfolding tally_all aggregated_status aggregated_code as_i32 generate_human_summary
from_job_summaries run summaries ms =
    let t = tally_all summaries no_tally in
    let status = aggregated_status t.codes in
    let n = length summaries in
    record {
      run_id = run;
      status = status;
      exit_code = as_i32 (aggregated_code t.codes);
      step_count = n;
      steps_succeeded = t.succeeded;
      steps_failed = t.failed;
      steps_cancelled = t.cancelled;
      steps_skipped = 0;
      steps_rejected = t.rejected;
      duration_ms = ms;
      human_summary = generate_human_summary status n t.succeeded t.failed t.cancelled t.rejected;
    }

unfoldable pub empty : Text → RunSummary
unfolding as_i32
empty run = record {
  run_id = run;
  status = Status.success;
  exit_code = as_i32 ExitCode.success;
  step_count = 0;
  steps_succeeded = 0;
  steps_failed = 0;
  steps_cancelled = 0;
  steps_skipped = 0;
  steps_rejected = 0;
  duration_ms = 0;
  human_summary = text "No steps executed";
}

unfoldable pub with_skipped_steps : ℕ → RunSummary → RunSummary
unfolding generate_human_summary
with_skipped_steps count s =
    let n = s.step_count + count in
    record s {
      steps_skipped = count;
      step_count = n;
      human_summary =
          generate_human_summary s.status n s.steps_succeeded s.steps_failed s.steps_cancelled
            s.steps_rejected;
    }
