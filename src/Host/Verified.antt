-- ===== src/Host/Verified.antt =====
-- When the fetching of src/src/pipeline.rs finds nothing wrong with what it unpacked.
use rch_mac.Base.{
  ℕ, true, false, Option, none, some, if◌then◌else◌, Text, text_eq, text_eq_iff, List, [], ◌∷◌,
  ◌++◌, map, filter, Result, ok, err, Result-cases, Option-cases, Bool-cases, ok-injective, ◌>>=◌,
  inl, inr, ◌⊎◌, ◌≡◌, refl, ◌∙◌, ap, arith,
}
use mathlib.Core.Option.{some-injective}
use rch_mac.Host.Artifacts.{
  ArtifactManifest, IntegrityError, VerificationError, VerificationResult, Directory, Digests,
  verify_entries, find_extra_files, found_errors, judge, concluded, fail, loaded, verify_artifacts,
  failure_info, displays, display, entry_error, extra_file,
}
use rch_mac.Host.Intact.{
  Intact, both_empty, map_empty, if_empty, unexcluded, verify_entries-EntryOk,
  find_extra_files-WalkedOk,
}
use rch_mac.Base.{Value}
use rch_mac.Base.Max.{ℤ}
use rch_mac.Host.Client.{Transport, Session}
use rch_mac.Host.Payloads.{FetchResponse}
use rch_mac.Host.Operations.{fetch}
use rch_mac.Host.Poll.{StepConfig, fetch_artifacts}
use rch_mac.Host.Unpack.{Files, Unpacking, report, verify_directory, unpack_content}

-- A result that passed has no error behind it.
fail_lem :
    (es : List VerificationError) (r : VerificationResult) → fail es ≡ some r → r.passed ≡ false
unfolding fail
fail_lem [] r h = absurd (ground arith)
fail_lem (e ∷ es) r h = elim (Option-cases (display e)) [
  | inl q ↦ absurd (ground arith)
  | inr (t, q) ↦ ground arith
]

judge_lem :
    (es : List VerificationError) (r : VerificationResult)
    → judge es ≡ some r
    → r.passed ≡ true
    → es ≡ []
judge_lem [] r h k = refl
judge_lem (e ∷ es) r h k = let f = fail_lem (e ∷ es) r h in absurd (cc)

loaded_lem : (o : Result ArtifactManifest Text) (m : ArtifactManifest) → loaded o ≡ ok m → o ≡ ok m
loaded_lem (ok x) m h = h
loaded_lem (err e) m h = absurd (ground arith)

concluded-passed :
    (found : Result (List VerificationError) Text) (r : VerificationResult)
    → concluded found ≡ some (ok r)
    → r.passed ≡ true
    → found ≡ ok []
concluded-passed (err x) r h k = absurd (ground arith)
concluded-passed (ok es) r h k = elim (Option-cases (judge es)) [
  | inl q ↦ absurd (ground arith)
  | inr (s, q) ↦
      let a : Result VerificationResult Text = ok s in
      let b : Result VerificationResult Text = ok r in
      let same : some a ≡ some b = ground arith in
      let e : s ≡ r = ok-injective (some-injective _ _ same) in
      ap ok (judge_lem es r (q ∙ ap some e) k)
]

bind-ok :
    {A B : Type 0} (x : Result A Text) (f : A → Result B Text) (b : B)
    → (x >>= f) ≡ ok b
    → (a : A) × (x ≡ ok a) × (f a ≡ ok b)
bind-ok (ok a) f b h = (a, refl, h)
bind-ok (err e) f b h = absurd (ground arith)

found_errors_none :
    (m : ArtifactManifest) (root : Text) (errors : List IntegrityError) (extra : List Text)
    → found_errors m root errors extra ≡ []
    → (root ≡ m.artifact_root_sha256) × (errors ≡ []) × (filter unexcluded extra ≡ [])
found_errors_none m root errors extra h =
    let wrong : List VerificationError =
      if text_eq root m.artifact_root_sha256
      then []
      else VerificationError.root_hash_mismatch m.artifact_root_sha256 root ∷ [] in
    let late : List VerificationError = map extra_file (filter unexcluded extra) in
    let (first, more) = both_empty (wrong ++ map entry_error errors) late h in
    let (same, entries) = both_empty wrong (map entry_error errors) first in
    (
      (text_eq_iff root m.artifact_root_sha256).0 (if_empty _ _ same),
      map_empty entry_error errors entries,
      map_empty extra_file (filter unexcluded extra) more,
    )

verify_artifacts-Intact :
    (d : Digests) (at : Directory) (r : VerificationResult)
    → verify_artifacts d at ≡ some (ok r)
    → r.passed ≡ true
    → Intact d at
unfolding verify_artifacts
verify_artifacts-Intact d at r h k =
    let found = concluded-passed _ r h k in
    let (m, a, f) = bind-ok (loaded at.manifest) _ [] found in
    let (root, b, g) = bind-ok (d.root m.entries) _ [] f in
    let (errors, c, i) = bind-ok (verify_entries d m.entries at) _ [] g in
    let (extra, e, j) = bind-ok (find_extra_files m.entries at.walk) _ [] i in
    let (equal, entries, more) = found_errors_none m root errors extra (ok-injective j) in
    record {
      manifest = m;
      read = loaded_lem at.manifest m a;
      root = b ∙ ap ok equal;
      entries = verify_entries-EntryOk d m.entries at (c ∙ ap ok entries);
      nothing_else = find_extra_files-WalkedOk m.entries at.walk extra e more;
    }

report_lem : (r : VerificationResult) → report r ≡ ok none → r.passed ≡ true
unfolding report failure_info
report_lem r h = elim (Bool-cases (r.passed)) [
  | inl e ↦ e
  | inr e ↦ elim (Option-cases (displays (r.errors))) [
    | inl q ↦ absurd (ground arith)
    | inr (ts, q) ↦ absurd (ground arith)
  ]
]

verify_directory-Intact :
    (d : Digests) (at : Directory)
    → verify_directory d at ≡ ok none
    → (at.manifest_exists ≡ false) ⊎ Intact d at
unfolding verify_directory
verify_directory-Intact d at h = elim (Bool-cases (at.manifest_exists)) [
  | inr e ↦ inl e
  | inl e ↦ elim (Option-cases (verify_artifacts d at)) [
    | inl q ↦ absurd (ground arith)
    | inr (a, q) ↦ elim (Result-cases a) [
      | inr (x, f) ↦ absurd (ground arith)
      | inl (r, f) ↦
          let reported : report r ≡ ok none = ground arith in
          inr (verify_artifacts-Intact d at r (q ∙ ap some f) (report_lem r reported))
    ]
  ]
]

-- Nothing is found wrong with an unpacked content only where there is no manifest.json, or where the
-- directory is what its manifest says.
unpack_content-Intact :
    (d : Digests) (u : Unpacking)
    → unpack_content d u ≡ ok none
    → (u.directory.manifest_exists ≡ false) ⊎ Intact d u.directory
unfolding unpack_content
unpack_content-Intact d u h = elim (Option-cases (u.write)) [
  | inr (x, e) ↦ absurd (ground arith)
  | inl e ↦ elim (Result-cases (u.tar)) [
    | inr (x, f) ↦ absurd (ground arith)
    | inl (success, f) ↦
        let left = if success then u.remove else none in
        elim (Option-cases left) [
          | inr (x, g) ↦ absurd (ground arith)
          | inl g ↦ verify_directory-Intact d u.directory (ground arith)
        ]
  ]
]

-- What a step that succeeds got with its artifacts: nothing, a directory without a manifest.json, or one
-- that is what its manifest says.
pub data Delivered (files : Files) (job_id : Text) (content : Option (List ℕ)) : Type 0 where
  no_content : content ≡ none → Delivered files job_id content
  no_manifest :
      (c : List ℕ)
      → content ≡ some c
      → (files.unpack job_id c).directory.manifest_exists ≡ false
      → Delivered files job_id content
  verified :
      (c : List ℕ)
      → content ≡ some c
      → Intact files.digests (files.unpack job_id c).directory
      → Delivered files job_id content

module _ {W : Type 0} (net : Transport W) (as_i64 : Value → Option ℤ) (clock : W → ℕ)
    (files : Files) (config : StepConfig) where
  pub fetch_artifacts-Delivered :
      (job_id : Text) (s : Session W)
      → (fetch_artifacts net as_i64 clock files config job_id s).1 ≡ ok none
      → (r : FetchResponse) × ((fetch net as_i64 job_id s).1 ≡ ok r)
        × Delivered files job_id r.content
  unfolding fetch_artifacts
  fetch_artifacts-Delivered job_id s h = elim (Result-cases ((fetch net as_i64 job_id s).1)) [
    | inr (x, e) ↦ absurd (ground arith)
    | inl (r, e) ↦ (
      r,
      e,
      elim (Option-cases (r.content)) [
        | inl f ↦ no_content f
        | inr (c, f) ↦
            elim (unpack_content-Intact files.digests (files.unpack job_id c) (ground arith)) [
              | inl g ↦ no_manifest c f g
              | inr g ↦ verified c f g
            ]
      ],
    )
  ]
