-- ===== src/Summary/Examples.antt =====
-- The theorems on src/summary for a run of a build that succeeds and a test that fails.
use rch_mac.Base.{ℕ, false, none, Text, text, List, [], ◌∷◌, ◌≡◌}
use rch_mac.Run.{Action, PlanStep}
use rch_mac.Summary.{FailureKind, JobSummary, as_i32, job_success, job_failure}
use rch_mac.Summary.RunSummary.{from_job_summaries}
use rch_mac.Summary.Laws.{overall, from_job_summaries-overall}

abbrev run : Text
run = text "run"

abbrev built : JobSummary
built = job_success run (text "a") (text "key-a") 10

abbrev tested : JobSummary
tested =
    job_failure run (text "b") (text "key-b") FailureKind.xcodebuild none (text "tests failed") 20

abbrev jobs : List JobSummary
jobs = built ∷ tested ∷ []

from_job_summaries-overall_example :
    let r = from_job_summaries run jobs 30 in
    (r.status ≡ (overall jobs).0) × (r.exit_code ≡ as_i32 (overall jobs).1)
from_job_summaries-overall_example = from_job_summaries-overall run jobs 30

abbrev step : ℕ → Text → Action → PlanStep
step i job action = record {
  index = i;
  action = action;
  job_id = job;
  rejected = false;
  rejection_reasons = [];
}
