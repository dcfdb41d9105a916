-- ===== src/Host/Wire.antt =====
-- src/crates/rch-protocol/src/ops/tail.rs as serde writes it, read by the client of
-- src/src/host/rpc.rs.
use rch_mac.Base.{
  ℕ, true, Option, none, some, Text, text, [], Value, Values, nil, cons, Members, member, end,
  string, array, object, ◌≡◌, refl, ap, text_eq, find_member, get_key,
}
use rch_mac.Host.Payloads.{read_tail}
use rch_mac.Host.Streaming.{LogStreamer, process_tail_response}
use rch_mac.Host.Poll.{take_tail}

-- A response of the worker, its chunk as text: `skip_serializing_if` leaves out what is not there.
pub record WorkerTail : Type 0 where
  pub job_id : Text
  pub next_cursor : Option Text
  pub log_chunk : Option Text
  pub events : Values

abbrev optional : Text → Option Text → Members → Members
optional k none m = m
optional k (some v) m = member k (string v) m

abbrev listed : Text → Values → Members
listed k nil = end
listed k (cons v vs) = member k (array (cons v vs)) end

unfoldable pub serialize_fields : Text → (next_cursor log_chunk : Option Text) → Values → Value
serialize_fields job_id next_cursor log_chunk events = object (
    member (text "job_id") (string job_id) (
      optional (text "next_cursor") next_cursor
        (optional (text "log_chunk") log_chunk (listed (text "events") events))))

unfoldable pub serialize : WorkerTail → Value
unfolding serialize_fields
serialize a = serialize_fields a.job_id a.next_cursor a.log_chunk a.events

read_fields :
    (job_id : Text) (next_cursor log_chunk : Option Text) (events : Values)
    → read_tail (serialize_fields job_id next_cursor log_chunk events)
      ≡ record { entries = []; next_cursor = none }
unfolding read_tail serialize_fields get_key find_member text_eq
read_fields job_id none none nil = refl
read_fields job_id none none (cons v vs) = refl
read_fields job_id none (some l) nil = refl
read_fields job_id none (some l) (cons v vs) = refl
read_fields job_id (some c) none nil = refl
read_fields job_id (some c) none (cons v vs) = refl
read_fields job_id (some c) (some l) nil = refl
read_fields job_id (some c) (some l) (cons v vs) = refl

read_tail-serialize :
    (a : WorkerTail) → read_tail (serialize a) ≡ record { entries = []; next_cursor = none }
unfolding serialize
read_tail-serialize a = read_fields a.job_id a.next_cursor a.log_chunk a.events

-- The client looks for entries and for a number. A streamer that takes what the client reads of a
-- response, as the worker writes it, thus counts no byte and sees no activity, whatever the log holds,
-- and takes the stream for complete.
pub take_tail-serialize :
    (now : ℕ) (a : WorkerTail) (s : LogStreamer)
    → take_tail now (read_tail (serialize a)) s ≡ record s { cursor = none; complete = true }
unfolding take_tail process_tail_response
take_tail-serialize now a s = ap (λ r. take_tail now r s) (read_tail-serialize a)
