-- ===== src/Host/Intact.antt =====
-- What a directory holds that passes the check of src/src/artifact/verify.rs.
use rch_mac.Base.{
  ℕ, ◌==◌, Bool, true, false, not, Option, none, some, if◌then◌else◌, Text, text, text_eq,
  text_eq_iff, List, [], ◌∷◌, ◌++◌, map, filter, is_empty, contains, contains_iff, Mem, All, Result,
  ok, err, Result-cases, Bool-cases, ok-injective, inl, inr, ◌≡◌, refl, sym, ◌∙◌, ap, subst, arith,
}
use rch_mac.Host.Artifacts.{
  ArtifactEntryType, ArtifactEntry, ArtifactManifest, IntegrityError, Node, Directory, Digests,
  size_errors, hash_errors, file_errors, node_errors, verify_entries, is_extra, excluded_files,
  find_extra_files,
}

-- A file with the digest that its entry has, if it has one.
pub data DigestOk (d : Digests) : Option Text → Result (List ℕ) Text → Type 0 where
  unhashed : (contents : Result (List ℕ) Text) → DigestOk d none contents
  hashed : (bytes : List ℕ) → DigestOk d (some (d.content bytes)) (ok bytes)

-- An entry that stands in the directory as its manifest says.
pub data EntryOk (d : Digests) (at : Directory) (e : ArtifactEntry) : Type 0 where
  as_directory :
      e.entry_type ≡ ArtifactEntryType.directory → at.node e.path ≡ some Node.dir → EntryOk d at e
  as_file :
      (contents : Result (List ℕ) Text)
      → e.entry_type ≡ ArtifactEntryType.file
      → at.node e.path ≡ some (Node.plain (ok e.size) contents)
      → DigestOk d e.sha256 contents
      → EntryOk d at e

-- A path that the directory may hold: its root, one of the three files that no manifest lists, and the
-- path of an entry.
pub data WalkedOk (es : List ArtifactEntry) : Result Text Text → Type 0 where
  root : WalkedOk es (ok [])
  excluded :
      (path : Text)
      → Mem path (text "manifest.json" ∷ text "attestation.json" ∷ text "job_index.json" ∷ [])
      → WalkedOk es (ok path)
  listed : (path : Text) → Mem path (map (λ (e : ArtifactEntry). e.path) es) → WalkedOk es (ok path)

pub record Intact (d : Digests) (at : Directory) : Type 0 where
  pub manifest : ArtifactManifest
  pub read : at.manifest ≡ ok manifest
  pub root : d.root manifest.entries ≡ ok manifest.artifact_root_sha256
  pub entries : All (EntryOk d at) manifest.entries
  pub nothing_else : All (WalkedOk manifest.entries) at.walk

pub both_empty : {A : Type 0} (l m : List A) → l ++ m ≡ [] → (l ≡ []) × (m ≡ [])
both_empty [] m h = (refl, h)
both_empty (x ∷ l) m h = absurd (ground arith)

pub map_empty : {A B : Type 0} (f : A → B) (l : List A) → map f l ≡ [] → l ≡ []
map_empty f [] h = refl
map_empty f (x ∷ l) h = absurd (ground arith)

pub if_empty : {A : Type 0} (b : Bool) (a : A) → (if b then [] else a ∷ []) ≡ [] → b ≡ true
if_empty true a h = refl
if_empty false a h = absurd (ground arith)

hash-DigestOk :
    (d : Digests) (e : ArtifactEntry) (o : Option Text) (contents : Result (List ℕ) Text)
    → e.sha256 ≡ o
    → hash_errors d e contents ≡ ok []
    → DigestOk d o contents
unfolding hash_errors
hash-DigestOk d e none contents q h = unhashed contents
hash-DigestOk d e (some x) (err y) q h = absurd (ground arith)
hash-DigestOk d e (some x) (ok bytes) q h =
    let list =
      if text_eq (d.content bytes) x
      then []
      else IntegrityError.hash_mismatch e.path x (d.content bytes) ∷ [] in
    let same : hash_errors d e (ok bytes) ≡ ok list = ground arith in
    let none_found : list ≡ [] = ok-injective (sym same ∙ h) in
    let equal = (text_eq_iff (d.content bytes) x).0 (if_empty _ _ none_found) in
    subst (λ t. DigestOk d (some t) (ok bytes)) equal (hashed bytes)

size_lem : (e : ArtifactEntry) (len : ℕ) → size_errors e len ≡ [] → len ≡ e.size
unfolding size_errors
size_lem e len h = let same = if_empty (len == e.size) _ h in ground arith

file-EntryOk :
    (d : Digests) (e : ArtifactEntry) (len : Result ℕ Text) (contents : Result (List ℕ) Text)
    → file_errors d e len contents ≡ ok []
    → (len ≡ ok e.size) × DigestOk d e.sha256 contents
file-EntryOk d e (err x) contents h = absurd (ground arith)
file-EntryOk d e (ok len) contents h = elim (Result-cases (hash_errors d e contents)) [
  | inr (x, q) ↦ absurd (ground arith)
  | inl (errors, q) ↦
      let same : file_errors d e (ok len) contents ≡ ok (size_errors e len ++ errors) =
        ground arith in
      let (a, b) = both_empty (size_errors e len) errors (ok-injective (sym same ∙ h)) in
      (ap ok (size_lem e len a), hash-DigestOk d e (e.sha256) contents refl (q ∙ ap ok b))
]

node-EntryOk :
    (d : Digests) (at : Directory) (e : ArtifactEntry) (kind : ArtifactEntryType) (n : Option Node)
    → e.entry_type ≡ kind
    → at.node e.path ≡ n
    → node_errors d e kind n ≡ ok []
    → EntryOk d at e
node-EntryOk d at e kind none k q h = absurd (ground arith)
node-EntryOk d at e ArtifactEntryType.directory (some Node.dir) k q h = as_directory k q
node-EntryOk d at e ArtifactEntryType.directory (some (Node.plain len contents)) k q h =
    absurd (ground arith)
node-EntryOk d at e ArtifactEntryType.directory (some Node.special) k q h = absurd (ground arith)
node-EntryOk d at e ArtifactEntryType.file (some Node.dir) k q h = absurd (ground arith)
node-EntryOk d at e ArtifactEntryType.file (some (Node.plain len contents)) k q h =
    let (size, digest) = file-EntryOk d e len contents h in
    as_file contents k (q ∙ ap (λ l. some (Node.plain l contents)) size) digest
node-EntryOk d at e ArtifactEntryType.file (some Node.special) k q h = absurd (ground arith)

pub verify_entries-EntryOk :
    (d : Digests) (es : List ArtifactEntry) (at : Directory)
    → verify_entries d es at ≡ ok []
    → All (EntryOk d at) es
unfolding verify_entries
verify_entries-EntryOk d [] at h = tt
verify_entries-EntryOk d (e ∷ es) at h =
    elim (Result-cases (node_errors d e (e.entry_type) (at.node e.path))) [
      | inr (x, q) ↦ absurd (ground arith)
      | inl (errors, q) ↦ elim (Result-cases (verify_entries d es at)) [
        | inr (x, r) ↦ absurd (ground arith)
        | inl (more, r) ↦
            let same : verify_entries d (e ∷ es) at ≡ ok (errors ++ more) = ground arith in
            let (a, b) = both_empty errors more (ok-injective (sym same ∙ h)) in
            (
              node-EntryOk d at e (e.entry_type) (at.node e.path) refl refl (q ∙ ap ok a),
              verify_entries-EntryOk d es at (r ∙ ap ok b),
            )
      ]
    ]

is_extra-WalkedOk :
    (es : List ArtifactEntry) (path : Text) → is_extra es path ≡ false → WalkedOk es (ok path)
is_extra-WalkedOk es [] h = root
is_extra-WalkedOk es (c ∷ path) h =
    let p : Text = c ∷ path in
    elim (Bool-cases (contains excluded_files p)) [
      | inl e ↦ excluded p ((contains_iff excluded_files p).0 e)
      | inr e ↦
          let paths = map (λ (x : ArtifactEntry). x.path) es in
          listed p ((contains_iff paths p).0 (ground arith))
    ]

is_extra-excluded :
    (es : List ArtifactEntry) (path : Text)
    → is_extra es path ≡ true
    → contains excluded_files path ≡ false
is_extra-excluded es path h = elim (Bool-cases (contains excluded_files path)) [
  | inr e ↦ e
  | inl e ↦ elim (Bool-cases (is_empty path)) [
    | inl f ↦ absurd (ground arith)
    | inr f ↦ absurd (ground arith)
  ]
]

abbrev pub unexcluded : Text → Bool
unexcluded p = not (contains excluded_files p)

pub find_extra_files-WalkedOk :
    (es : List ArtifactEntry) (walk : List (Result Text Text)) (extra : List Text)
    → find_extra_files es walk ≡ ok extra
    → filter unexcluded extra ≡ []
    → All (WalkedOk es) walk
unfolding find_extra_files
find_extra_files-WalkedOk es [] extra h k = tt
find_extra_files-WalkedOk es (err x ∷ walk) extra h k = absurd (ground arith)
find_extra_files-WalkedOk es (ok path ∷ walk) extra h k =
    elim (Result-cases (find_extra_files es walk)) [
      | inr (x, q) ↦ absurd (ground arith)
      | inl (rest, q) ↦ elim (Bool-cases (is_extra es path)) [
        | inr e ↦
            let made : find_extra_files es (ok path ∷ walk) ≡ ok rest = ground arith in
            let same : rest ≡ extra = ok-injective (sym made ∙ h) in
            (
              is_extra-WalkedOk es path e,
              find_extra_files-WalkedOk es walk rest q (ap (filter unexcluded) same ∙ k),
            )
        | inl e ↦
            let made : find_extra_files es (ok path ∷ walk) ≡ ok (path ∷ rest) = ground arith in
            let same : path ∷ rest ≡ extra = ok-injective (sym made ∙ h) in
            let kept = is_extra-excluded es path e in
            let gone : filter unexcluded (path ∷ rest) ≡ [] = ap (filter unexcluded) same ∙ k in
            absurd (ground arith)
      ]
    ]
