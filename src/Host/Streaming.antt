-- ===== src/Host/Streaming.antt =====
-- src/src/run/streaming.rs: the streamer that follows a log. A log chunk is the list of its bytes; a
-- time is in nanoseconds, and the time of `Instant::now()` is an argument; the totals wrap around at
-- 2^64.
use rch_mac.Base.{
  ℕ, ◌+◌, ◌-◌, ◌%◌, ◌^◌, ltb, Bool, true, false, ◌||◌, Option, none, some, if◌then◌else◌, Text,
  text, text_eq, List, [], length, Value, Values, nil, cons, array, get_key, as_str,
}

pub record LogStreamerConfig : Type 0 where
  pub poll_interval : ℕ
  pub max_bytes_per_request : Option ℕ
  pub max_events_per_request : Option ℕ

abbrev pub with_poll_interval : ℕ → LogStreamerConfig
with_poll_interval interval = record {
  poll_interval = interval;
  max_bytes_per_request = none;
  max_events_per_request = none;
}

pub data StreamMode : Type 0 where
  tail status_fallback : StreamMode

pub record StreamUpdate : Type 0 where
  pub log_chunk : Option (List ℕ)
  pub events : List Value
  pub had_activity : Bool
  pub complete : Bool

abbrev pub empty_update : StreamUpdate
empty_update = record { log_chunk = none; events = []; had_activity = false; complete = false }

abbrev pub completed_update : StreamUpdate
completed_update = record { log_chunk = none; events = []; had_activity = false; complete = true }

pub record LogStreamer : Type 0 where
  pub config : LogStreamerConfig
  pub mode : StreamMode
  pub cursor : Option Text
  pub last_activity : ℕ
  pub complete : Bool
  pub total_bytes : ℕ
  pub total_events : ℕ

unfoldable pub new : (now : ℕ) → LogStreamerConfig → Bool → LogStreamer
new now config has_tail = record {
  config = config;
  mode = if has_tail then StreamMode.tail else StreamMode.status_fallback;
  cursor = none;
  last_activity = now;
  complete = false;
  total_bytes = 0;
  total_events = 0;
}

abbrev pub time_since_activity : (now : ℕ) → LogStreamer → ℕ
time_since_activity now s = now - s.last_activity

abbrev pub bytes_of : Option (List ℕ) → List ℕ
bytes_of none = []
bytes_of (some c) = c

abbrev is_none : Option Text → Bool
is_none none = true
is_none (some c) = false

unfoldable pub process_tail_response :
    (now : ℕ)
    → Option Text
    → Option (List ℕ)
    → List Value
    → LogStreamer
    → LogStreamer × StreamUpdate
process_tail_response now next_cursor log_chunk events s =
    let log_bytes = length (bytes_of log_chunk) in
    let event_count = length events in
    let had_activity = ltb 0 log_bytes || ltb 0 event_count in
    let complete = is_none next_cursor in
    let active : LogStreamer =
      if had_activity
      then record s {
        last_activity = now;
        total_bytes = (s.total_bytes + log_bytes) % 2 ^ 64;
        total_events = (s.total_events + event_count) % 2 ^ 64;
      }
      else s in
    (
      record active { cursor = next_cursor; complete = complete },
      record {
        log_chunk = log_chunk;
        events = events;
        had_activity = had_activity;
        complete = complete;
      },
    )

unfoldable pub process_status_response : Bool → LogStreamer → LogStreamer × StreamUpdate
process_status_response true s = (record s { complete = true }, completed_update)
process_status_response false s = (s, empty_update)

abbrev pub mark_activity : (now : ℕ) → LogStreamer → LogStreamer
mark_activity now s = record s { last_activity = now }

unfoldable pub reset : (now : ℕ) → LogStreamer → LogStreamer
reset now s = record s {
  cursor = none;
  last_activity = now;
  complete = false;
  total_bytes = 0;
  total_events = 0;
}

abbrev pub tail_request_params : LogStreamer → Option Text × Option ℕ × Option ℕ
tail_request_params s = (s.cursor, s.config.max_bytes_per_request, s.config.max_events_per_request)

unfoldable pub is_terminal_state : Text → Bool
is_terminal_state state =
    text_eq state (text "SUCCEEDED")
    || text_eq state (text "FAILED")
    || text_eq state (text "CANCELLED")

abbrev has_text : Text → Values → Bool
has_text t nil = false
has_text t (cons v vs) = elim (as_str v) [
  | none ↦ has_text t vs
  | some w ↦ text_eq w t || has_text t vs
]

unfoldable pub has_tail_feature : Value → Bool
has_tail_feature capabilities = elim (get_key (text "features") capabilities) [
  | none ↦ false
  | some f ↦ elim f [ array vs ↦ has_text (text "tail") vs | _ ↦ false ]
]
