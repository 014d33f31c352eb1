-- ===== src/Tests/Histories.antt =====
-- The history of power of a plug with three samples.
use merossity.Prelude.{ℕ, String}
use merossity.Prelude.{◌≡◌, refl}
use merossity.Prelude.{none, some, [], ◌∷◌, map}
use merossity.Prelude.Integers.{ℤ, pos}
use merossity.Json.{Number, nan, Value, text, object, field, end}
use merossity.Telemetry.{
  TelemetrySampleRow, TelemetryDb, HistoryQuery, History, history_of, get_telemetry_history_buckets,
  bucket_times, insert_time, bucket_point, maximum,
}

abbrev no_number : Value → Number
no_number v = nan

abbrev no_text : Value → String
no_text v = ""

abbrev sample : (at_ms : ℕ) → ℤ → TelemetrySampleRow
sample at_ms power = record {
  uuid = "plug";
  channel = 0;
  at_ms = at_ms;
  voltage_v = none;
  current_a = none;
  power_w = some power;
  raw_voltage_dv = none;
  raw_current_ma = none;
  raw_power_mw = none;
  source = "lan";
}

abbrev plug_samples : TelemetryDb
plug_samples = record {
  samples = sample 90061000 (pos 7) ∷ sample 90000500 (pos 5) ∷ sample 90000900 (pos 3) ∷ [];
  days = [];
}

abbrev plug_query : HistoryQuery
plug_query = record {
  uuid = "plug";
  channel = 0;
  from_ms = 70000000;
  to_ms = 91600000;
  bucket_ms = 60000;
}

abbrev plug_history : History
plug_history = history_of plug_query plug_samples

abbrev plug_history_body : Value
plug_history_body = object (field "uuid" (text "plug") end)

plug_history_times : map (λ p. p.t) plug_history.points ≡ 90000000 ∷ 90060000 ∷ []
unfolding get_telemetry_history_buckets bucket_times insert_time bucket_point
plug_history_times = refl

plug_history_most : map (λ p. p.power_w_max) plug_history.points ≡ some (pos 5) ∷ some (pos 7) ∷ []
unfolding get_telemetry_history_buckets bucket_times insert_time bucket_point maximum
plug_history_most = refl
