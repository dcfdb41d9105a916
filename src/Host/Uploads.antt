-- ===== src/Host/Uploads.antt =====
-- src/src/host/resumable.rs: the session of an upload, and the store of the sessions. The store is a
-- hash map, whose order of iteration is the order of the list; the lock is left out.
use rch_mac.Base.{
  ℕ, ◌+◌, ◌-◌, ◌^◌, min, leb, Bool, not, Option, none, some, Text, text_eq, List, [], Dict, get,
  insert, remove, retain, find?, map,
}

pub record UploadSession : Type 0 where
  pub upload_id : Text
  pub source_sha256 : Text
  pub content_length : ℕ
  pub offset : ℕ
  pub chunk_checksums : List Text

abbrev pub new : Text → Text → ℕ → UploadSession
new id sha len = record {
  upload_id = id;
  source_sha256 = sha;
  content_length = len;
  offset = 0;
  chunk_checksums = [];
}

unfoldable pub is_complete : UploadSession → Bool
is_complete s = leb s.content_length s.offset

unfoldable pub remaining : UploadSession → ℕ
remaining s = s.content_length - s.offset

-- `saturating_add` on a u64.
unfoldable pub advance : ℕ → UploadSession → UploadSession
advance bytes s = record s { offset = min (s.offset + bytes) (2 ^ 64 - 1) }

abbrev pub UploadSessionStore : Type 0
UploadSessionStore = Dict UploadSession

unfoldable pub get_or_create :
    Text → Text → ℕ → UploadSessionStore → UploadSessionStore × UploadSession
get_or_create id sha len store = elim (get id store) [
  | some s ↦ (store, s)
  | none ↦ (insert id (new id sha len) store, new id sha len)
]

unfoldable pub update : UploadSession → UploadSessionStore → UploadSessionStore
update s store = insert s.upload_id s store

unfoldable pub remove_session :
    Text → UploadSessionStore → UploadSessionStore × Option UploadSession
remove_session id store = (remove id store, get id store)

unfoldable pub find_by_source : Text → UploadSessionStore → Option UploadSession
find_by_source sha store = find? (λ s. text_eq s.source_sha256 sha) (map (λ e. e.1) store)

unfoldable pub cleanup_stale : ℕ → UploadSessionStore → UploadSessionStore
cleanup_stale max_age_seconds store = retain (λ s. not (is_complete s)) store
