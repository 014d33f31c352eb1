-- ===== src/Telemetry/Asked.antt =====
-- What get-telemetry-power-history.ts answers.
use merossity.Prelude.{ℕ, ◌+◌, ◌-◌, ◌*◌, ◌≤◌, ◌<◌, String}
use merossity.Prelude.{◌≡◌, true}
use merossity.Prelude.{List, map}
use merossity.Prelude.{length}
use merossity.Prelude.{keep, All}
use merossity.Prelude.Texts.{trim}
use merossity.Json.{Number, Value, get}
use merossity.Api.Client.{done, to_text}
use merossity.Api.Switching.{channel_of}
use merossity.Telemetry.{
  TelemetryDb, HistoryQuery, History, history_of, bucket_of, is_asked, time_in, six_hours,
}
use merossity.Telemetry.Buckets.{Spaced, has_time}

-- A time whose bucket meets the time from `lo` to `hi`.
abbrev pub Meets : (lo hi bucket t : ℕ) → Type 0
Meets lo hi bucket t = (lo < t + bucket) × (t ≤ hi)

-- The times of an answer are apart by a bucket, meet the range, and fit in it.
abbrev pub Tells : History → Type 0
Tells r =
    let times = map (λ p. p.t) r.points in
    Spaced r.bucket_ms times
    × All (Meets r.from_ms r.to_ms r.bucket_ms) times
    × (r.from_ms + length times * r.bucket_ms < r.to_ms + 2 * r.bucket_ms)

-- Each row that is asked for is in the bucket of one of the times.
abbrev pub Covers : HistoryQuery → TelemetryDb → List ℕ → Type 0
Covers q db times =
    All (λ row. has_time (bucket_of q.bucket_ms row.at_ms) times ≡ true)
      (keep (is_asked q) db.samples)

module _ (parse_number : Value → Number) (print_value : Value → String) where
  -- What a body asks for, at a time: the channel, 0 where it is missing, and the two times and the
  -- width as they are given, or the last six hours in buckets of a minute.
  abbrev pub AsksFor : (now : ℕ) → Value → HistoryQuery → Type 0
  AsksFor now body q =
      (q.uuid ≡ trim (to_text print_value (get "uuid" body)))
      × (channel_of parse_number print_value (get "channel" body) ≡ done q.channel)
      × (q.from_ms ≡ time_in parse_number print_value (get "fromMs" body) 0 (now - six_hours))
      × (q.to_ms ≡ time_in parse_number print_value (get "toMs" body) 0 now)
      × (q.bucket_ms ≡ time_in parse_number print_value (get "bucketMs" body) 1000 60000)

  -- What is answered for a body and a table.
  abbrev pub Answers : (now : ℕ) → Value → TelemetryDb → History → Type 0
  Answers now body db r =
      (q : HistoryQuery) × AsksFor now body q
      × (r ≡ history_of q db)
      × Covers q db (map (λ p. p.t) r.points)
