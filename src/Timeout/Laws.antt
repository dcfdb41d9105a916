-- ===== src/Timeout/Laws.antt =====
-- The bounds of src/timeout.rs, and when a job times out under any sequence of recorded activities.
use rch_mac.Base.{ℕ, ◌+◌, ◌≤◌, ◌<◌, ok, List, [], ◌∷◌, ◌≡◌, ◌↔◌, refl, arith}
use rch_mac.Timeout.{
  TimeoutConfig, TimeoutEnforcer, no_timeout, overall_timeout, idle_timeout, validate, new,
  record_activity, check, from_secs, overall_remaining, idle_remaining, elapsed, idle_time,
}

-- The bounds of the plan.
pub record InBounds (c : TimeoutConfig) : Type 0 where
  pub overall : (0 < c.overall_seconds) × (c.overall_seconds ≤ 86400)
  pub idle : (0 < c.idle_log_seconds) × (c.idle_log_seconds ≤ c.overall_seconds)
  pub connect : (0 < c.connect_timeout_seconds) × (c.connect_timeout_seconds ≤ 300)

-- A configuration is valid exactly when it is in the bounds.
validate_iff : (c : TimeoutConfig) → (validate c ≡ ok tt) ↔ InBounds c
unfolding validate
validate_iff c = (
  (λ h. record {
    overall = (ground arith, ground arith);
    idle = (ground arith, ground arith);
    connect = (ground arith, ground arith);
  }),
  (λ b. let (o, o') = b.overall in let (i, i') = b.idle in let (c, c') = b.connect in ground arith),
)

-- The status at a time, for an enforcer whose start and last activity are not later: the overall
-- timeout exactly when more time than allowed has passed since the start, the idle timeout exactly
-- when not so but more time than allowed has passed since the last activity, and otherwise none.
check_iff :
    (now : ℕ) (e : TimeoutEnforcer)
    → e.start_time ≤ now
    → e.last_activity ≤ now
    → ((check now e ≡ overall_timeout) ↔ (e.start_time + from_secs e.config.overall_seconds < now))
      × ((check now e ≡ idle_timeout) ↔ (
          (now ≤ e.start_time + from_secs e.config.overall_seconds)
          × (e.last_activity + from_secs e.config.idle_log_seconds < now)))
      × ((check now e ≡ no_timeout) ↔ (
          (now ≤ e.start_time + from_secs e.config.overall_seconds)
          × (now ≤ e.last_activity + from_secs e.config.idle_log_seconds)))
unfolding check
check_iff now e s a = (
  ((λ h. ground arith), (λ h. ground arith)),
  ((λ h. (ground arith, ground arith)), (λ (h, k). ground arith)),
  ((λ h. (ground arith, ground arith)), (λ (h, k). ground arith)),
)

-- The times of the log events of a job, each one later than those before it.
abbrev pub IsTimeline : (from : ℕ) → List ℕ → (now : ℕ) → Type 0
IsTimeline from [] now = from ≤ now
IsTimeline from (t ∷ ts) now = (from ≤ t) × IsTimeline t ts now

-- Every gap of the timeline, the last one to `now` included, is at most `g`.
abbrev pub NoGap : (g from : ℕ) → List ℕ → (now : ℕ) → Type 0
NoGap g from [] now = now ≤ from + g
NoGap g from (t ∷ ts) now = (t ≤ from + g) × NoGap g t ts now

abbrev pub record_all : List ℕ → TimeoutEnforcer → TimeoutEnforcer
record_all [] e = e
record_all (t ∷ ts) e = record_all ts (record_activity t e)

record_all-quiet :
    (e : TimeoutEnforcer) (ts : List ℕ) (now : ℕ)
    → e.start_time ≤ e.last_activity
    → IsTimeline e.last_activity ts now
    → now ≤ e.start_time + from_secs e.config.overall_seconds
    → NoGap (from_secs e.config.idle_log_seconds) e.last_activity ts now
    → check now (record_all ts e) ≡ no_timeout
unfolding record_activity
record_all-quiet e [] now s line o gap = (check_iff now e (ground arith) line).2.1 (o, gap)
record_all-quiet e (t ∷ ts) now s (first, line) o (g, gap) =
    record_all-quiet (record_activity t e) ts now (ground arith) line o gap

-- A job that has not run longer than allowed, and whose log, recorded in order, never was silent
-- longer than allowed, is not timed out.
lively-check :
    (start : ℕ) (c : TimeoutConfig) (ts : List ℕ) (now : ℕ)
    → IsTimeline start ts now
    → now ≤ start + from_secs c.overall_seconds
    → NoGap (from_secs c.idle_log_seconds) start ts now
    → check now (record_all ts (new start c)) ≡ no_timeout
unfolding new
lively-check start c ts now line o gap =
    record_all-quiet (new start c) ts now (ground arith) line o gap

start-record_all :
    (e : TimeoutEnforcer) (ts : List ℕ)
    → ((record_all ts e).start_time ≡ e.start_time) × ((record_all ts e).config ≡ e.config)
unfolding record_activity
start-record_all e [] = (refl, refl)
start-record_all e (t ∷ ts) = start-record_all (record_activity t e) ts

-- Once more time than allowed has passed since the start, the overall timeout is reported,
-- whatever activities were recorded.
overdue-check :
    (start : ℕ) (c : TimeoutConfig) (ts : List ℕ) (now : ℕ)
    → start + from_secs c.overall_seconds < now
    → check now (record_all ts (new start c)) ≡ overall_timeout
unfolding new check
overdue-check start c ts now late = let (s, k) = start-record_all (new start c) ts in ground arith

-- When a timeout is reported the time that remains of it is 0, and while some remains of both no
-- timeout is reported.
check-remaining :
    (now : ℕ) (e : TimeoutEnforcer)
    → ((check now e ≡ overall_timeout) → overall_remaining now e ≡ 0)
      × ((check now e ≡ idle_timeout) → idle_remaining now e ≡ 0)
      × ((0 < overall_remaining now e) → (0 < idle_remaining now e) → check now e ≡ no_timeout)
unfolding check overall_remaining idle_remaining elapsed idle_time
check-remaining now e = ((λ h. ground arith), (λ h. ground arith), (λ h k. ground arith))
