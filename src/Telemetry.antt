-- ===== src/Telemetry.antt =====
-- packages/core/src/api/telemetry-db.ts, the tables of samples and of daily consumption, and
-- get-telemetry-power-history.ts, which answers the samples in buckets of time. A table is the list
-- of its rows in the order of insertion. An average is its sum and its count, exactly; SQLite rounds
-- the quotient. The latest sample, where SQLite chooses among equal times, is left out.
pub mod Asked
mod Buckets
use merossity.Prelude.{ℕ, zero, suc, ◌+◌, ◌-◌, ◌*◌, ◌/◌, ◌%◌, ◌^◌, ◌≤◌, ◌<◌, min, max, String}
use merossity.Prelude.{◌≡◌, refl, sym, ap, ◌∙◌, ◌≢◌, ◌↔◌, ◌⊎◌, inl, inr, Bool, true, false, not}
use merossity.Prelude.{
  ◌&&◌, ◌||◌, Option, none, some, List, [], ◌∷◌, ◌++◌, map, arith, eq_iff, eq_refl,
}
use merossity.Prelude.{ltb, leb, ◌==◌, str_eq, if◌then◌else◌, ltb→lt, lt→ltb, leb→le, ==_iff, tests}
use merossity.Prelude.{
  Bool-cases, Option-cases, is_some, get_or, or_else, map_option, length, get_elem?,
}
use merossity.Prelude.{take, drop, find, any, all, keep, All, All-append, All-take, All-keep}
use merossity.Prelude.Integers.{ℤ, pos, negsuc}
use merossity.Prelude.Texts.{trim}
use merossity.Json.{Number, finite, Value, get, unit}
use merossity.Poller.Digest.{to_number}
use merossity.Api.Client.{
  Handler, Reply, done, refused, ◌>>=◌, ◌>>◌, reply, answer, refuse_if, to_text, is_undefined,
}
use merossity.Api.Switching.{channel_of}

pub record TelemetrySampleRow : Type 0 where
  pub uuid : String
  pub channel : ℕ
  pub at_ms : ℕ
  pub voltage_v : Option ℤ
  pub current_a : Option ℤ
  pub power_w : Option ℤ
  pub raw_voltage_dv : Option ℤ
  pub raw_current_ma : Option ℤ
  pub raw_power_mw : Option ℤ
  pub source : String

pub record ConsumptionDay : Type 0 where
  pub uuid : String
  pub channel : ℕ
  pub date : String
  pub at_s : ℕ
  pub wh : ℕ

pub record TelemetryDb : Type 0 where
  pub samples : List TelemetrySampleRow
  pub days : List ConsumptionDay

unfoldable pub insert_telemetry_sample : TelemetrySampleRow → TelemetryDb → TelemetryDb
insert_telemetry_sample row db = record db { samples = db.samples ++ row ∷ [] }

abbrev pub same_day : ConsumptionDay → ConsumptionDay → Bool
same_day a b = str_eq a.uuid b.uuid && a.channel == b.channel && str_eq a.date b.date

-- `ON CONFLICT(uuid, channel, date) DO UPDATE`
put_day : ConsumptionDay → List ConsumptionDay → List ConsumptionDay
put_day row [] = row ∷ []
put_day row (d ∷ days) =
    let rest = put_day row days in if same_day d row then row ∷ days else d ∷ rest

unfoldable pub upsert_consumption_day : ConsumptionDay → TelemetryDb → TelemetryDb
unfolding put_day
upsert_consumption_day row db = record db { days = put_day row db.days }

abbrev add_int : ℤ → ℤ → ℤ
add_int (pos a) (pos b) = pos (a + b)
add_int (negsuc a) (negsuc b) = negsuc (a + b + 1)
add_int (pos a) (negsuc b) = if ltb b a then pos (a - b - 1) else negsuc (b - a)
add_int (negsuc a) (pos b) = if ltb a b then pos (b - a - 1) else negsuc (a - b)

abbrev int_leb : ℤ → ℤ → Bool
int_leb (pos a) (pos b) = leb a b
int_leb (negsuc a) (negsuc b) = leb b a
int_leb (pos a) (negsuc b) = false
int_leb (negsuc a) (pos b) = true

-- The values of a column that are not null.
present : List (Option ℤ) → List ℤ
present [] = []
present (none ∷ os) = present os
present (some n ∷ os) = n ∷ present os

sum_of : List ℤ → ℤ
sum_of [] = pos 0
sum_of (n ∷ ns) = add_int n (sum_of ns)

pub record Average : Type 0 where
  pub sum : ℤ
  pub count : ℕ

-- `AVG`, null without a value.
unfoldable pub average : List (Option ℤ) → Option Average
unfolding present sum_of
average column = elim (present column) [
  | [] ↦ none
  | n ∷ ns ↦ some (record { sum = sum_of (n ∷ ns); count = length (n ∷ ns) })
]

max_of : ℤ → List ℤ → ℤ
max_of m [] = m
max_of m (n ∷ ns) = max_of (if int_leb m n then n else m) ns

-- `MAX`, null without a value.
unfoldable pub maximum : List (Option ℤ) → Option ℤ
unfolding present max_of
maximum column = elim (present column) [ [] ↦ none | n ∷ ns ↦ some (max_of n ns) ]

pub record TelemetryBucketPoint : Type 0 where
  pub t : ℕ
  pub power_w_avg : Option Average
  pub power_w_max : Option ℤ
  pub voltage_v_avg : Option Average
  pub current_a_avg : Option Average

-- What is asked for: the samples of a channel from one time to another.
pub record HistoryQuery : Type 0 where
  pub uuid : String
  pub channel : ℕ
  pub from_ms : ℕ
  pub to_ms : ℕ
  pub bucket_ms : ℕ

-- `CAST(at_ms / ? AS INTEGER) * ?`
abbrev pub bucket_of : (bucket_ms at_ms : ℕ) → ℕ
bucket_of bucket_ms at_ms = at_ms / bucket_ms * bucket_ms

-- `WHERE ...`
abbrev pub is_asked : HistoryQuery → TelemetrySampleRow → Bool
is_asked q row =
    str_eq row.uuid q.uuid
    && row.channel == q.channel
    && leb q.from_ms row.at_ms
    && leb row.at_ms q.to_ms

-- A time among others, in order and once.
unfoldable pub insert_time : ℕ → List ℕ → List ℕ
insert_time t [] = t ∷ []
insert_time t (u ∷ times) =
    let rest = insert_time t times in
    if ltb t u then t ∷ u ∷ times else if t == u then u ∷ times else u ∷ rest

-- The times of the buckets that have a row.
unfoldable pub bucket_times : (bucket_ms : ℕ) → List TelemetrySampleRow → List ℕ
bucket_times bucket_ms [] = []
bucket_times bucket_ms (row ∷ rows) =
    insert_time (bucket_of bucket_ms row.at_ms) (bucket_times bucket_ms rows)

unfoldable pub bucket_point :
    (bucket_ms : ℕ) → List TelemetrySampleRow → (t : ℕ) → TelemetryBucketPoint
bucket_point bucket_ms rows t =
    let group = keep (λ row. bucket_of bucket_ms row.at_ms == t) rows in
    record {
      t = t;
      power_w_avg = average (map (λ row. row.power_w) group);
      power_w_max = maximum (map (λ row. row.power_w) group);
      voltage_v_avg = average (map (λ row. row.voltage_v) group);
      current_a_avg = average (map (λ row. row.current_a) group);
    }

-- `GROUP BY t ORDER BY t ASC`
unfoldable pub get_telemetry_history_buckets :
    HistoryQuery → TelemetryDb → List TelemetryBucketPoint
get_telemetry_history_buckets q db =
    let rows = keep (is_asked q) db.samples in
    map (bucket_point q.bucket_ms rows) (bucket_times q.bucket_ms rows)

-- `Number.isFinite(n) ? Math.max(least, Math.floor(n)) : other`
unfoldable pub time_from : Number → (least other : ℕ) → ℕ
time_from (finite (pos z)) least other = max least (z / unit)
time_from (finite (negsuc n)) least other = least
time_from _ least other = other

pub record History : Type 0 where
  pub from_ms : ℕ
  pub to_ms : ℕ
  pub bucket_ms : ℕ
  pub points : List TelemetryBucketPoint

abbrev pub six_hours : ℕ
six_hours = 6 * 60 * 60 * 1000

abbrev pub thirty_days : ℕ
thirty_days = 30 * 24 * 60 * 60 * 1000

-- What is answered to what is asked for.
abbrev pub history_of : HistoryQuery → TelemetryDb → History
history_of q db = record {
  from_ms = q.from_ms;
  to_ms = q.to_ms;
  bucket_ms = q.bucket_ms;
  points = get_telemetry_history_buckets q db;
}

module _ (parse_number : Value → Number) (print_value : Value → String) where
  abbrev pub time_in : Value → (least other : ℕ) → ℕ
  time_in v least other =
      if is_undefined v then other else time_from (to_number parse_number v) least other

  unfoldable pub get_telemetry_power_history :
      (now : ℕ) → TelemetryDb → (body : Value) → Handler History
  get_telemetry_power_history now db body = do
    let uuid = trim (to_text print_value (get "uuid" body))
    refuse_if (str_eq uuid "") "missing_uuid" "Missing uuid"
    channel ← answer (channel_of parse_number print_value (get "channel" body))
    let to_ms = time_in (get "toMs" body) 0 now
    let from_ms = time_in (get "fromMs" body) 0 (now - six_hours)
    let bucket_ms = time_in (get "bucketMs" body) 1000 60000
    refuse_if (ltb to_ms from_ms) "invalid_range" "fromMs must be <= toMs"
    refuse_if (ltb thirty_days (to_ms - from_ms)) "invalid_range" "Range too large (max 30 days)"
    let query : HistoryQuery = record {
      uuid = uuid;
      channel = channel;
      from_ms = from_ms;
      to_ms = to_ms;
      bucket_ms = bucket_ms;
    }
    reply (history_of query db)
