-- ===== src/Poller/Types.antt =====
-- The types of packages/core/src/api/state-poller.ts. `0 | 1` is a `Bool`, and a channel is a
-- natural number, since the extractors let no other pass. A finite JavaScript number that the
-- program only stores and compares is an integer: its multiple of 2^-1074, the least positive
-- double, of which every finite double is one. Times are milliseconds.
use merossity.Prelude.{ℕ, String}
use merossity.Prelude.{Bool}
use merossity.Prelude.{Option, none, List}
use merossity.Prelude.Integers.{ℤ}

pub record LanToggleXChannel : Type 0 where
  pub channel : ℕ
  pub onoff : Bool

pub record LanLightState : Type 0 where
  pub channel : ℕ
  pub onoff : Bool
  pub luminance : Option ℤ
  pub temperature : Option ℤ
  pub rgb : Option ℤ

pub record LanScheduleDigestEntry : Type 0 where
  pub channel : ℕ
  pub id : String
  pub count : ℕ

pub data Kind : Type 0 where
  togglex light mixed : Kind

pub data PollReason : Type 0 where
  poller manual : PollReason

pub record DeviceStateDto : Type 0 where
  pub uuid : String
  pub host : String
  pub kind : Kind
  pub channel : ℕ
  pub onoff : Bool
  pub channels : List LanToggleXChannel
  pub lights : List LanLightState
  pub light : Option LanLightState
  pub timerx_digest : List LanScheduleDigestEntry
  pub triggerx_digest : List LanScheduleDigestEntry
  pub updated_at : ℕ
  pub source : PollReason
  pub stale : Bool
  pub error : Option String

-- The readings of one sample, in volts, amperes and watts and in the device's raw units.
pub record PowerReadings : Type 0 where
  pub voltage_v : Option ℤ
  pub current_a : Option ℤ
  pub power_w : Option ℤ
  pub voltage_dv : Option ℤ
  pub current_ma : Option ℤ
  pub power_mw : Option ℤ

pub data TelemetryReason : Type 0 where
  telemetry_poller telemetry_manual : TelemetryReason

pub record DevicePowerDto : Type 0 where
  pub uuid : String
  pub host : String
  pub channel : ℕ
  pub readings : PowerReadings
  pub updated_at : ℕ
  pub source : TelemetryReason
  pub stale : Bool
  pub error : Option String

pub record PollErrorDto : Type 0 where
  pub uuid : String
  pub code : String
  pub message : String
  pub at : ℕ

pub record PollMeta : Type 0 where
  pub next_due_at : ℕ
  pub failure_count : ℕ
  pub last_success_at : Option ℕ
  pub last_change_at : Option ℕ
  pub last_resolve_attempt_at : Option ℕ
  pub boost_until_at : Option ℕ
  pub telemetry_next_due_at : ℕ
  pub telemetry_failure_count : ℕ
  pub telemetry_last_success_at : Option ℕ

pub record KnownHost : Type 0 where
  pub host : String
  pub mac : Option String

pub record PollerStats : Type 0 where
  pub running : Bool
  pub in_flight : ℕ
  pub queue_depth : ℕ
  pub cycle_ms_p50 : ℕ
  pub cycle_ms_p95 : ℕ
  pub last_cycle_at : Option ℕ
  pub active_clients : ℕ

unfoldable pub create_meta : ℕ → PollMeta
create_meta now = record {
  next_due_at = now;
  failure_count = 0;
  last_success_at = none;
  last_change_at = none;
  last_resolve_attempt_at = none;
  boost_until_at = none;
  telemetry_next_due_at = now;
  telemetry_failure_count = 0;
  telemetry_last_success_at = none;
}
