-- ===== src/Host/Artifacts.antt =====
-- src/src/artifact/manifest.rs and src/src/artifact/verify.rs: the check of a directory against its
-- manifest. What the file system answers for the directory is a parameter, as are SHA-256 and the
-- canonical JSON of the entries; the digest of a content and the root of the entries are texts.
use rch_mac.Base.{
  ℕ, ◌-◌, ◌==◌, leb, Bool, true, false, not, Option, none, some, if◌then◌else◌, Text, text, text_eq,
  List, [], ◌∷◌, ◌++◌, map, filter, length, is_empty, contains, utf8, decimal, Result, ok, err,
  ◌>>=◌,
}

pub data ArtifactEntryType : Type 0 where
  file directory : ArtifactEntryType

pub record ArtifactEntry : Type 0 where
  pub path : Text
  pub size : ℕ
  pub sha256 : Option Text
  pub entry_type : ArtifactEntryType

-- The manifest, as far as it is verified.
pub record ArtifactManifest : Type 0 where
  pub entries : List ArtifactEntry
  pub artifact_root_sha256 : Text

pub data IntegrityError : Type 0 where
  missing_file : (path : Text) → IntegrityError
  type_mismatch hash_mismatch : (path expected actual : Text) → IntegrityError
  size_mismatch : (path : Text) → (expected actual : ℕ) → IntegrityError

pub data VerificationError : Type 0 where
  root_hash_mismatch : (expected actual : Text) → VerificationError
  entry_error : IntegrityError → VerificationError
  extra_file : (path : Text) → VerificationError

pub record VerificationResult : Type 0 where
  pub passed : Bool
  pub errors : List VerificationError
  pub summary : Text

-- What stands at a path: the length and the bytes of a file may fail to be read.
pub data Node : Type 0 where
  dir : Node
  plain : (len : Result ℕ Text) → (contents : Result (List ℕ) Text) → Node
  special : Node

-- A directory: its manifest.json, if it exists, what stands at a path, and the walk over the relative
-- paths in it, which may fail on the way.
pub record Directory : Type 0 where
  pub manifest_exists : Bool
  pub manifest : Result ArtifactManifest Text
  pub node : Text → Option Node
  pub walk : List (Result Text Text)

-- The digest of a content, and the one of the canonical JSON of the entries.
pub record Digests : Type 0 where
  pub content : List ℕ → Text
  pub root : List ArtifactEntry → Result Text Text

abbrev pub excluded_files : List Text
excluded_files = text "manifest.json" ∷ text "attestation.json" ∷ text "job_index.json" ∷ []

-- The comparison of the size and, where the entry has one, of the digest.
unfoldable pub size_errors : ArtifactEntry → ℕ → List IntegrityError
size_errors e len = if len == e.size then [] else size_mismatch e.path e.size len ∷ []

unfoldable pub hash_errors :
    Digests → ArtifactEntry → Result (List ℕ) Text → Result (List IntegrityError) Text
hash_errors d e contents = elim (e.sha256) [
  | none ↦ ok []
  | some expected ↦ elim contents [
    | err x ↦ err x
    | ok bytes ↦ ok (
        if text_eq (d.content bytes) expected
        then []
        else hash_mismatch e.path expected (d.content bytes) ∷ [])
  ]
]

abbrev pub file_errors :
    Digests
    → ArtifactEntry
    → Result ℕ Text
    → Result (List ℕ) Text
    → Result (List IntegrityError) Text
file_errors d e (err x) contents = err x
file_errors d e (ok len) contents = elim (hash_errors d e contents) [
  | err x ↦ err x
  | ok errors ↦ ok (size_errors e len ++ errors)
]

abbrev pub wrong_type : ArtifactEntry → (expected actual : Text) → List IntegrityError
wrong_type e expected actual = type_mismatch e.path expected actual ∷ []

-- One turn of the loop over the entries.
abbrev pub node_errors :
    Digests → ArtifactEntry → ArtifactEntryType → Option Node → Result (List IntegrityError) Text
node_errors d e kind none = ok (missing_file e.path ∷ [])
node_errors d e ArtifactEntryType.directory (some Node.dir) = ok []
node_errors d e ArtifactEntryType.directory (some (Node.plain len contents)) =
    ok (wrong_type e (text "directory") (text "file"))
node_errors d e ArtifactEntryType.directory (some Node.special) =
    ok (wrong_type e (text "directory") (text "file"))
node_errors d e ArtifactEntryType.file (some Node.dir) =
    ok (wrong_type e (text "file") (text "directory"))
node_errors d e ArtifactEntryType.file (some (Node.plain len contents)) =
    file_errors d e len contents
node_errors d e ArtifactEntryType.file (some Node.special) =
    ok (wrong_type e (text "file") (text "directory"))

unfoldable pub verify_entries :
    Digests → List ArtifactEntry → Directory → Result (List IntegrityError) Text
unfolding size_errors hash_errors
verify_entries d [] at = ok []
verify_entries d (e ∷ es) at = elim (node_errors d e (e.entry_type) (at.node e.path)) [
  | err x ↦ err x
  | ok errors ↦ elim (verify_entries d es at) [ err x ↦ err x | ok more ↦ ok (errors ++ more) ]
]

-- The root of the walk has an empty path and is passed over, as the excluded files are.
abbrev pub is_extra : List ArtifactEntry → Text → Bool
is_extra es path =
    if is_empty path
    then false
    else if contains excluded_files path
    then false
    else not (contains (map (λ (e : ArtifactEntry). e.path) es) path)

unfoldable pub find_extra_files :
    List ArtifactEntry → List (Result Text Text) → Result (List Text) Text
find_extra_files es [] = ok []
find_extra_files es (err x ∷ walk) = err x
find_extra_files es (ok path ∷ walk) = elim (find_extra_files es walk) [
  | err x ↦ err x
  | ok extra ↦ ok (if is_extra es path then path ∷ extra else extra)
]

-- `&t[..n]`: a panic, answered as none, where the text is shorter or the index is within a character.
unfoldable pub first_bytes : ℕ → Text → Option Text
first_bytes n [] = if n == 0 then some [] else none
first_bytes n (c ∷ t) =
    let width = length (utf8 (c ∷ [])) in
    let rest = first_bytes (n - width) t in
    if n == 0
    then some []
    else if leb width n
    then elim rest [ none ↦ none | some s ↦ some (c ∷ s) ]
    else none

abbrev two_heads : Text → Text → (Text → Text → Text) → Option Text
two_heads expected actual f = elim (first_bytes 12 expected) [
  | none ↦ none
  | some e ↦ elim (first_bytes 12 actual) [ none ↦ none | some a ↦ some (f e a) ]
]

-- The text of an error; none where its formatting panics.
unfoldable pub display : VerificationError → Option Text
unfolding first_bytes
display (root_hash_mismatch expected actual) =
    two_heads expected actual
      (λ e a. text "artifact_root_sha256 mismatch: expected " ++ e ++ text ", got " ++ a)
display (entry_error (missing_file path)) = some (path ++ text ": missing")
display (entry_error (type_mismatch path expected actual)) =
    some (path ++ text ": expected " ++ expected ++ text ", got " ++ actual)
display (entry_error (size_mismatch path expected actual)) = some (
    path
    ++ text ": size mismatch ("
    ++ decimal expected
    ++ text " vs "
    ++ decimal actual
    ++ text ")")
display (entry_error (hash_mismatch path expected actual)) =
    two_heads expected actual
      (λ e a. path ++ text ": hash mismatch (" ++ e ++ text "... vs " ++ a ++ text "...)")
display (extra_file path) = some (path ++ text ": unexpected file")

abbrev pub displays : List VerificationError → Option (List Text)
displays [] = some []
displays (e ∷ es) = elim (display e) [
  | none ↦ none
  | some t ↦ elim (displays es) [ none ↦ none | some ts ↦ some (t ∷ ts) ]
]

abbrev pub pass : VerificationResult
pass = record { passed = true; errors = []; summary = text "Artifact verification passed" }

-- A failing result; none where it panics, on an error that panics or on no error.
unfoldable pub fail : List VerificationError → Option VerificationResult
unfolding display
fail [] = none
fail (e ∷ es) = elim (display e) [
  | none ↦ none
  | some t ↦ some (record {
    passed = false;
    errors = e ∷ es;
    summary =
        text "Artifact verification failed: "
        ++ (if is_empty es
            then t
            else decimal (length (e ∷ es)) ++ text " errors (first: " ++ t ++ text ")");
  })
]

-- The error texts of the failure information, under the kind and subkind that never vary.
unfoldable pub failure_info : VerificationResult → Option (Option (List Text))
unfolding display
failure_info r =
    if r.passed
    then some none
    else elim (displays (r.errors)) [ none ↦ none | some ts ↦ some (some ts) ]

abbrev pub found_errors :
    ArtifactManifest → (root : Text) → List IntegrityError → List Text → List VerificationError
found_errors m root entry_errors extra =
    (if text_eq root m.artifact_root_sha256
      then []
      else root_hash_mismatch m.artifact_root_sha256 root ∷ [])
    ++ map entry_error entry_errors
    ++ map extra_file (filter (λ p. not (contains excluded_files p)) extra)

abbrev pub judge : List VerificationError → Option VerificationResult
judge [] = some pass
judge (e ∷ es) = fail (e ∷ es)

abbrev pub loaded : Result ArtifactManifest Text → Result ArtifactManifest Text
loaded (ok m) = ok m
loaded (err e) = err (text "IO error: Failed to load manifest.json: " ++ e)

abbrev pub concluded :
    Result (List VerificationError) Text → Option (Result VerificationResult Text)
concluded (err x) = some (err x)
concluded (ok errors) = elim (judge errors) [ none ↦ none | some r ↦ some (ok r) ]

-- The verification: its result, or the error of the manifest; none where it panics.
unfoldable pub verify_artifacts : Digests → Directory → Option (Result VerificationResult Text)
unfolding verify_entries find_extra_files fail
verify_artifacts d at = concluded (
    loaded at.manifest >>= (λ (m : ArtifactManifest). d.root m.entries >>= (λ root.
      verify_entries d m.entries at >>= (λ errors.
        find_extra_files m.entries at.walk >>= (λ extra. ok (found_errors m root errors extra))))))
