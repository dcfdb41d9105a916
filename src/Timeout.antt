-- ===== src/Timeout.antt =====
-- src/timeout.rs: the timeouts of a job. An `Instant` and a `Duration` are counts of nanoseconds, and
-- the time of `Instant::now()` is an argument; `duration_since` gives 0 for a later time.
pub mod Laws
use rch_mac.Base.{
  ℕ, ◌-◌, ◌*◌, ltb, ◌==◌, Bool, true, false, ◌||◌, Option, none, some, unwrap_or, if◌then◌else◌,
  Text, text, Result, ok, err,
}

pub record TimeoutConfig : Type 0 where
  pub overall_seconds : ℕ
  pub idle_log_seconds : ℕ
  pub connect_timeout_seconds : ℕ

pub data TimeoutValidationError : Type 0 where
  overall_out_of_bounds : ℕ → TimeoutValidationError
  idle_out_of_bounds : (value max : ℕ) → TimeoutValidationError
  connect_out_of_bounds : ℕ → TimeoutValidationError

-- `TimeoutConfig::default`
abbrev pub default : TimeoutConfig
default = record { overall_seconds = 1800; idle_log_seconds = 300; connect_timeout_seconds = 30 }

unfoldable pub validate : TimeoutConfig → Result (Unit {0}) TimeoutValidationError
validate c =
    if c.overall_seconds == 0 || ltb 86400 c.overall_seconds
    then err (overall_out_of_bounds c.overall_seconds)
    else if c.idle_log_seconds == 0 || ltb c.overall_seconds c.idle_log_seconds
    then err (idle_out_of_bounds c.idle_log_seconds c.overall_seconds)
    else if c.connect_timeout_seconds == 0 || ltb 300 c.connect_timeout_seconds
    then err (connect_out_of_bounds c.connect_timeout_seconds)
    else ok tt

unfoldable pub from_config : (overall idle connect : Option ℕ) → TimeoutConfig
from_config overall idle connect = record {
  overall_seconds = unwrap_or overall default.overall_seconds;
  idle_log_seconds = unwrap_or idle default.idle_log_seconds;
  connect_timeout_seconds = unwrap_or connect default.connect_timeout_seconds;
}

pub data TimeoutStatus : Type 0 where
  no_timeout overall_timeout idle_timeout : TimeoutStatus

unfoldable pub is_timeout : TimeoutStatus → Bool
is_timeout no_timeout = false
is_timeout _ = true

unfoldable pub failure_subkind : TimeoutStatus → Option Text
failure_subkind no_timeout = none
failure_subkind overall_timeout = some (text "TIMEOUT_OVERALL")
failure_subkind idle_timeout = some (text "TIMEOUT_IDLE")

pub record TimeoutEnforcer : Type 0 where
  pub config : TimeoutConfig
  pub start_time : ℕ
  pub last_activity : ℕ

abbrev pub from_secs : ℕ → ℕ
from_secs s = s * 1000000000

unfoldable pub new : (now : ℕ) → TimeoutConfig → TimeoutEnforcer
new now c = record { config = c; start_time = now; last_activity = now }

unfoldable pub record_activity : (now : ℕ) → TimeoutEnforcer → TimeoutEnforcer
record_activity now e = record e { last_activity = now }

unfoldable pub sync_activity : ℕ → TimeoutEnforcer → TimeoutEnforcer
sync_activity t e = record e { last_activity = t }

unfoldable pub check : (now : ℕ) → TimeoutEnforcer → TimeoutStatus
check now e =
    if ltb (from_secs e.config.overall_seconds) (now - e.start_time)
    then overall_timeout
    else if ltb (from_secs e.config.idle_log_seconds) (now - e.last_activity)
    then idle_timeout
    else no_timeout

unfoldable pub elapsed : (now : ℕ) → TimeoutEnforcer → ℕ
elapsed now e = now - e.start_time

unfoldable pub idle_time : (now : ℕ) → TimeoutEnforcer → ℕ
idle_time now e = now - e.last_activity

unfoldable pub overall_remaining : (now : ℕ) → TimeoutEnforcer → ℕ
unfolding elapsed
overall_remaining now e = from_secs e.config.overall_seconds - elapsed now e

unfoldable pub idle_remaining : (now : ℕ) → TimeoutEnforcer → ℕ
unfolding idle_time
idle_remaining now e = from_secs e.config.idle_log_seconds - idle_time now e

unfoldable pub reset : (now : ℕ) → TimeoutEnforcer → TimeoutEnforcer
reset now e = record e { start_time = now; last_activity = now }
