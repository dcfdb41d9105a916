-- ===== src/Host/Unpack.antt =====
-- src/src/pipeline.rs: what `fetch_artifacts` does with the content that it got. What the file system and
-- `tar` answer is a parameter.
use rch_mac.Base.{
  ℕ, Bool, Option, none, some, if◌then◌else◌, Text, text, List, [], ◌∷◌, ◌++◌, Result, ok, err,
}
use rch_mac.Host.Envelope.{RpcError}
use rch_mac.Host.Artifacts.{Directory, Digests, VerificationResult, verify_artifacts, failure_info}

-- The errors of `PipelineError` that a step can end with; `io` is that of the files, and `panic` stands
-- for a step that panics.
pub data StepError : Type 0 where
  rpc : RpcError → StepError
  io : Text → StepError
  timeout panic : StepError

-- What the files answer for one content: the error of writing the archive, whether `tar` succeeded or the
-- error of starting it, the error of removing the archive, and the directory of the step after that.
pub record Unpacking : Type 0 where
  pub write : Option Text
  pub tar : Result Bool Text
  pub remove : Option Text
  pub directory : Directory

pub record Files : Type 0 where
  pub unpack : (job_id : Text) → (content : List ℕ) → Unpacking
  pub digests : Digests

-- The errors of a result, the panic of their formatting included.
unfoldable pub report : VerificationResult → Result (Option (List Text)) StepError
unfolding failure_info
report r =
    if r.passed
    then ok none
    else elim (failure_info r) [ none ↦ err StepError.panic | some errors ↦ ok errors ]

-- The verification, where there is a manifest.json.
unfoldable pub verify_directory : Digests → Directory → Result (Option (List Text)) StepError
unfolding verify_artifacts report
verify_directory d at =
    if at.manifest_exists
    then elim (verify_artifacts d at) [
      | none ↦ err StepError.panic
      | some (err e) ↦ ok (some ((text "Failed to verify artifacts: " ++ e) ∷ []))
      | some (ok r) ↦ report r
    ]
    else ok none

-- The archive is removed only where `tar` succeeded; the directory is verified also where it failed.
unfoldable pub unpack_content : Digests → Unpacking → Result (Option (List Text)) StepError
unfolding verify_directory
unpack_content d u = elim (u.write) [
  | some e ↦ err (StepError.io e)
  | none ↦ elim (u.tar) [
    | err e ↦ err (StepError.io e)
    | ok success ↦ elim (if success then u.remove else none) [
      | some e ↦ err (StepError.io e)
      | none ↦ verify_directory d u.directory
    ]
  ]
]
