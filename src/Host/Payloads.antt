-- ===== src/Host/Payloads.antt =====
-- src/src/host/rpc.rs: what the operations answer, and what they read of a JSON payload. What
-- `serde_json` answers for `as_i64` is a parameter.
use rch_mac.Base.{
  ℕ, ◌-◌, ◌%◌, ◌^◌, ltb, Ordering, Bool, false, Option, none, some, unwrap_or, if◌then◌else◌, Text,
  text, List, [], ◌∷◌, Value, Values, nil, cons, bool, unsigned, array, object, member, end,
  get_key, insert_member,
}
use rch_mac.Base.Max.{ℤ, pos, negsuc, compare_ℤ}
use rch_mac.Host.Envelope.{u64_of, str_of}

pub record ReserveResponse : Type 0 where
  pub lease_id : Text
  pub expires_at : Text

pub record SubmitResponse : Type 0 where
  pub job_id : Text
  pub state : Text
  pub created_at : Text

pub record StatusResponse : Type 0 where
  pub job_id : Text
  pub state : Text
  pub exit_code : Option ℤ
  pub created_at : Text
  pub updated_at : Text
  pub artifacts_available : Bool

pub record LogEntry : Type 0 where
  pub timestamp : Text
  pub stream : Text
  pub line : Text

pub record TailResponse : Type 0 where
  pub entries : List LogEntry
  pub next_cursor : Option ℕ

pub record CancelResponse : Type 0 where
  pub job_id : Text
  pub state : Text
  pub already_terminal : Bool

pub record FetchResponse : Type 0 where
  pub job_id : Text
  pub content : Option (List ℕ)
  pub stream_metadata : Option Value

pub record UploadSourceResponse : Type 0 where
  pub upload_id : Option Text
  pub next_offset : ℕ
  pub complete : Bool

pub data CancelReason : Type 0 where
  user timeout_overall timeout_idle signal : CancelReason

abbrev pub as_text : CancelReason → Text
as_text CancelReason.user = text "USER"
as_text CancelReason.timeout_overall = text "TIMEOUT_OVERALL"
as_text CancelReason.timeout_idle = text "TIMEOUT_IDLE"
as_text CancelReason.signal = text "SIGNAL"

-- `super::resumable::ResumeRequest`
pub record ResumeRequest : Type 0 where
  pub upload_id : Text
  pub offset : ℕ

-- `payload[k].as_str().unwrap_or(d)`, `get(k).and_then(as_bool).unwrap_or(d)`, `get(k)` as a u64.
abbrev pub text_at : Text → Text → Value → Text
text_at k d v = unwrap_or (str_of (get_key k v)) d

abbrev as_bool : Value → Option Bool
as_bool (bool b) = some b
as_bool _ = none

abbrev pub bool_at : Text → Bool → Value → Bool
bool_at k d v = unwrap_or (elim (get_key k v) [ none ↦ none | some w ↦ as_bool w ]) d

abbrev pub u64_at : Text → Value → Option ℕ
u64_at k v = u64_of (get_key k v)

-- `as i32`
abbrev wrap_i32 : ℕ → ℤ
wrap_i32 m = if ltb m (2 ^ 31) then pos m else negsuc (2 ^ 32 - 1 - m)

abbrev pub to_i32 : ℤ → ℤ
to_i32 (pos n) = wrap_i32 (n % 2 ^ 32)
to_i32 (negsuc n) = wrap_i32 (2 ^ 32 - 1 - n % 2 ^ 32)

abbrev pub max_ℤ : ℤ → ℤ → ℤ
max_ℤ a b = elim (compare_ℤ a b) [ Ordering.gt ↦ a | _ ↦ b ]

abbrev pub min_ℤ : ℤ → ℤ → ℤ
min_ℤ a b = elim (compare_ℤ a b) [ Ordering.gt ↦ b | _ ↦ a ]

abbrev entry_of : Value → LogEntry
entry_of v = record {
  timestamp = text_at (text "timestamp") [] v;
  stream = text_at (text "stream") [] v;
  line = text_at (text "line") [] v;
}

abbrev entries_of : Values → List LogEntry
entries_of nil = []
entries_of (cons v vs) = entry_of v ∷ entries_of vs

-- `payload["entries"].as_array()`
abbrev entries_at : Option Value → List LogEntry
entries_at (some (array vs)) = entries_of vs
entries_at _ = []

-- What the client reads of the payload of a tail.
unfoldable pub read_tail : Value → TailResponse
read_tail p = record {
  entries = entries_at (get_key (text "entries") p);
  next_cursor = u64_at (text "next_cursor") p;
}

unfoldable pub read_status : (Value → Option ℤ) → Text → Value → StatusResponse
read_status as_i64 job_id p = record {
  job_id = text_at (text "job_id") job_id p;
  state = text_at (text "state") (text "UNKNOWN") p;
  exit_code = elim (get_key (text "exit_code") p) [
    | none ↦ none
    | some v ↦ elim (as_i64 v) [ none ↦ none | some c ↦ some (to_i32 c) ]
  ];
  created_at = text_at (text "created_at") [] p;
  updated_at = text_at (text "updated_at") [] p;
  artifacts_available = bool_at (text "artifacts_available") false p;
}

abbrev pub field : Text → Value → Value
field k v = object (member k v end)

abbrev pub number_of : Option ℕ → Option Value
number_of none = none
number_of (some n) = some (unsigned n)

abbrev pub with_member : Text → Option Value → Value → Value
with_member k (some v) (object m) = object (insert_member k v m)
with_member k _ p = p
