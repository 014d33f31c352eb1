-- ===== src/Poller/Telemetry.antt =====
-- `pollTelemetry` of packages/core/src/api/state-poller.ts, in the same steps as `pollDevice`.
-- `insertTelemetrySample` writes a row of a database, whose failures are ignored: `sample_of` is
-- the row.
pub mod Cadence
use merossity.Prelude.{ℕ, ◌+◌, max, String}
use merossity.Prelude.{Bool, true, false, not}
use merossity.Prelude.{◌||◌, Option, none, some, [], ◌∷◌, ◌++◌}
use merossity.Prelude.{ltb, leb, str_eq, if◌then◌else◌}
use merossity.Prelude.{get_or, or_else, map_option}
use merossity.Prelude.Maps.{lookup, insert}
use merossity.Prelude.Results.{Result, ok, err, ◌>>=◌}
use merossity.Prelude.Texts.{trim, starts_with, includes}
use merossity.Poller.Types.{PowerReadings, TelemetryReason, DevicePowerDto, PollMeta}
use merossity.Poller.Backoff.{failure_backoff_ms}
use merossity.Poller.Change.{bool_eq, opt_eq}
use merossity.Poller.Service.{
  Service, device_power, device_power_stale, has_key, remove_key, ensure_meta, set_meta, broadcast,
}
use merossity.Poller.Reading.{require_text, require_lan_key, next_updated_at}

-- What `extractLanElectricity` reads from a response.
pub record Electricity : Type 0 where
  pub channel : ℕ
  pub readings : PowerReadings

pub record TelemetryAnswers : Type 0 where
  pub host_entry : Option String
  pub device_type : Option String
  pub cloud_key : Option String
  pub env_key : Option String
  pub electricity : Result (Option Electricity)

-- What came of the calls: a device that is left out, or a reading of its host.
pub data Reading : Type 0 where
  skipped : Reading
  measured : (host : String) → Electricity → Reading

-- Plugs and strips, and devices of which the cloud says nothing.
unfoldable pub is_metered : String → Bool
is_metered cloud_model =
    str_eq cloud_model ""
    || (starts_with cloud_model "MSS"
        || starts_with cloud_model "MSP"
        || includes cloud_model "MSS")

abbrev pub require_electricity : Option Electricity → Result Electricity
require_electricity none =
    err "Electricity data unavailable (namespace unsupported or empty payload)."
require_electricity (some e) = ok e

module _ (to_upper_case : String → String) where
  unfoldable pub read_telemetry : TelemetryAnswers → Result Reading
  read_telemetry answers = do
    host ← require_text answers.host_entry "No LAN host known for device uuid. Resolve host first."
    if not (is_metered (to_upper_case (trim (get_or answers.device_type ""))))
        then ok skipped
        else do
          key ← require_lan_key answers.cloud_key answers.env_key
          resp ← answers.electricity
          parsed ← require_electricity resp
          ok (measured host parsed)

-- The time of the next poll, `interval` being `TELEMETRY_INTERVAL_MS`.
unfoldable pub schedule_telemetry : (interval started : ℕ) → PollMeta → PollMeta
schedule_telemetry interval started meta =
    let backoff =
      if ltb 0 meta.telemetry_failure_count
      then failure_backoff_ms meta.telemetry_failure_count
      else 0 in
    record meta { telemetry_next_due_at = started + max interval backoff }

-- `TELEMETRY_INTERVAL_MS` from the environment's whole number, if it is one.
unfoldable pub telemetry_interval_ms : Option ℕ → ℕ
telemetry_interval_ms none = 10000
telemetry_interval_ms (some raw) = if leb raw 0 then 10000 else max 2000 raw

unfoldable pub power_changed : Option DevicePowerDto → DevicePowerDto → Bool
power_changed none next = true
power_changed (some prev) next =
    not (bool_eq prev.stale next.stale)
    || not (opt_eq prev.readings.power_w next.readings.power_w)
    || not (opt_eq prev.readings.voltage_v next.readings.voltage_v)
    || not (opt_eq prev.readings.current_a next.readings.current_a)

abbrev error_eq : Option String → Option String → Bool
error_eq none none = true
error_eq (some a) (some b) = str_eq a b
error_eq _ _ = false

-- The same in the error path, where the message counts and of the readings only the power.
unfoldable pub stale_power_changed : Option DevicePowerDto → DevicePowerDto → Bool
stale_power_changed none next = true
stale_power_changed (some prev) next =
    not (bool_eq prev.stale next.stale)
    || not (error_eq prev.error next.error)
    || not (opt_eq prev.readings.power_w next.readings.power_w)

abbrev pub no_readings : PowerReadings
no_readings = record {
  voltage_v = none;
  current_a = none;
  power_w = none;
  voltage_dv = none;
  current_ma = none;
  power_mw = none;
}

unfoldable pub start_telemetry : String → ℕ → Service → Option Service
start_telemetry uuid now s =
    if has_key uuid s.telemetry_in_flight
    then none
    else let (s', _) = ensure_meta uuid now s in
      some (record s' { telemetry_in_flight = s'.telemetry_in_flight ++ uuid ∷ [] })

unfoldable pub telemetry_skipped : String → (interval started : ℕ) → Service → Service
telemetry_skipped uuid interval started s =
    let (s', meta) = ensure_meta uuid started s in
    set_meta uuid (record meta { telemetry_next_due_at = started + max 60000 interval }) s'

unfoldable pub telemetry_measured :
    String
    → TelemetryReason
    → (interval started now : ℕ) → (host : String) → Electricity
    → Service
    → Service
telemetry_measured uuid reason interval started now host parsed s =
    let (s0, meta) = ensure_meta uuid started s in
    let prev = lookup uuid s0.power_by_uuid in
    let next : DevicePowerDto = record {
      uuid = uuid;
      host = host;
      channel = parsed.channel;
      readings = parsed.readings;
      updated_at = next_updated_at (map_option (λ p. p.updated_at) prev) now;
      source = reason;
      stale = false;
      error = none;
    } in
    let s1 = record s0 { power_by_uuid = insert uuid next s0.power_by_uuid } in
    let s2 = if power_changed prev next then broadcast (device_power next) s1 else s1 in
    set_meta uuid
      (schedule_telemetry interval started
        (record meta { telemetry_failure_count = 0; telemetry_last_success_at = some started }))
      s2

unfoldable pub telemetry_failed :
    String → TelemetryReason → (interval started now : ℕ) → (message : String) → Service → Service
telemetry_failed uuid reason interval started now message s =
    let (s0, meta) = ensure_meta uuid started s in
    let s1 =
      set_meta uuid
        (schedule_telemetry interval started
          (record meta { telemetry_failure_count = meta.telemetry_failure_count + 1 }))
        s0 in
    let prev = lookup uuid s1.power_by_uuid in
    let known = map_option (λ h. h.host) (lookup uuid s1.known_hosts) in
    let stale_next : DevicePowerDto = record {
      uuid = uuid;
      host = get_or (or_else (map_option (λ p. p.host) prev) known) "";
      channel = get_or (map_option (λ p. p.channel) prev) 0;
      readings = get_or (map_option (λ p. p.readings) prev) no_readings;
      updated_at = next_updated_at (map_option (λ p. p.updated_at) prev) now;
      source = reason;
      stale = true;
      error = some message;
    } in
    let became_stale : Bool = elim prev [ none ↦ true | some p ↦ not p.stale ] in
    let s2 = record s1 { power_by_uuid = insert uuid stale_next s1.power_by_uuid } in
    let s3 =
      if stale_power_changed prev stale_next then broadcast (device_power stale_next) s2 else s2 in
    if became_stale then broadcast (device_power_stale stale_next) s3 else s3

module _ (to_upper_case : String → String) where
  unfoldable pub settle_telemetry :
      String → TelemetryReason → (interval started now : ℕ) → TelemetryAnswers → Service → Service
  settle_telemetry uuid reason interval started now answers s =
      elim (read_telemetry to_upper_case answers) [
        | ok reading ↦ elim reading [
          | skipped ↦ telemetry_skipped uuid interval started s
          | measured host parsed ↦ telemetry_measured uuid reason interval started now host parsed s
        ]
        | err message ↦ telemetry_failed uuid reason interval started now message s
      ]

unfoldable pub release_telemetry : String → Service → Service
release_telemetry uuid s = record s { telemetry_in_flight = remove_key uuid s.telemetry_in_flight }
