-- ===== src/Poller/Telemetry/Cadence.antt =====
-- When a device's telemetry is read again after a reading.
use merossity.Prelude.{ℕ, ◌+◌, max, String}
use merossity.Prelude.{◌≡◌, refl, inl, inr, Bool, true, false}
use merossity.Prelude.{some, arith}
use merossity.Prelude.{if◌then◌else◌}
use merossity.Prelude.Maps.{lookup, lookup-insert_self}
use merossity.Prelude.Results.{Result, ok, err, Result-cases}
use merossity.Poller.Types.{PollMeta, TelemetryReason}
use merossity.Poller.Backoff.{failure_backoff_ms}
use merossity.Poller.Service.{Service, Message, broadcast}
use merossity.Poller.Service.Frames.{ensure_meta_of_entry, broadcast-meta_by_uuid}
use merossity.Poller.Telemetry.{
  Electricity, TelemetryAnswers, Reading, skipped, measured, read_telemetry, schedule_telemetry,
  telemetry_skipped, telemetry_measured, telemetry_failed, settle_telemetry,
}

-- What the telemetry leaves alone: all that the polling of the state reads.
abbrev pub PollsAlike : PollMeta → PollMeta → Type 0
PollsAlike before after =
    (after.next_due_at ≡ before.next_due_at)
    × (after.failure_count ≡ before.failure_count)
    × (after.boost_until_at ≡ before.boost_until_at)
    × (after.last_change_at ≡ before.last_change_at)

-- The failures and the next time after each kind of outcome.
abbrev pub Follows : Result Reading → (interval started : ℕ) → PollMeta → PollMeta → Type 0
Follows (ok skipped) interval started before after =
    (after.telemetry_failure_count ≡ before.telemetry_failure_count)
    × (after.telemetry_next_due_at ≡ started + max 60000 interval)
Follows (ok (measured host parsed)) interval started before after =
    (after.telemetry_failure_count ≡ 0)
    × (after.telemetry_next_due_at ≡ started + interval)
    × (after.telemetry_last_success_at ≡ some started)
Follows (err message) interval started before after =
    (after.telemetry_failure_count ≡ before.telemetry_failure_count + 1)
    × (after.telemetry_next_due_at
        ≡ started + max interval (failure_backoff_ms (before.telemetry_failure_count + 1)))

told_or_not :
    (b : Bool) (m : Message) (t : Service)
    → (if b then broadcast m t else t).meta_by_uuid ≡ t.meta_by_uuid
told_or_not true m t = broadcast-meta_by_uuid m t
told_or_not false m t = refl

module _ (uuid : String) (reason : TelemetryReason) (interval started now : ℕ) (s : Service)
    {meta : PollMeta} (entry : lookup uuid s.meta_by_uuid ≡ some meta) where
  skipped-entry :
      lookup uuid (telemetry_skipped uuid interval started s).meta_by_uuid
      ≡ some (record meta { telemetry_next_due_at = started + max 60000 interval })
  unfolding telemetry_skipped
  skipped-entry =
      rw (ensure_meta_of_entry uuid started s entry) (lookup-insert_self uuid _ s.meta_by_uuid)

  measured-entry :
      (host : String) (parsed : Electricity)
      → lookup uuid (telemetry_measured uuid reason interval started now host parsed s).meta_by_uuid
        ≡ some (
            schedule_telemetry interval started (record meta {
              telemetry_failure_count = 0;
              telemetry_last_success_at = some started;
            }))
  unfolding telemetry_measured
  measured-entry host parsed =
      rw (ensure_meta_of_entry uuid started s entry) (lookup-insert_self uuid _ _)

  failed-entry :
      (message : String)
      → lookup uuid (telemetry_failed uuid reason interval started now message s).meta_by_uuid
        ≡ some (
            schedule_telemetry interval started
              (record meta { telemetry_failure_count = meta.telemetry_failure_count + 1 }))
  unfolding telemetry_failed
  failed-entry message =
      rw (ensure_meta_of_entry uuid started s entry)
        (rw (told_or_not, told_or_not) (lookup-insert_self uuid _ s.meta_by_uuid))

  -- A reading of the telemetry of a device that has an entry leaves the polling of its state as it
  -- was. A device that is not metered is asked again after a minute or more; one that was measured
  -- has no failures, and is measured again after the interval; one that could not be has one
  -- failure more, and waits for the interval or for the back-off, whichever is longer.
  pub settle_telemetry-meta :
      (upper : String → String) (answers : TelemetryAnswers)
      → (after : PollMeta) × (lookup uuid
            (settle_telemetry upper uuid reason interval started now answers s).meta_by_uuid
          ≡ some after)
        × PollsAlike meta after
        × Follows (read_telemetry upper answers) interval started meta after
  unfolding settle_telemetry schedule_telemetry
  settle_telemetry-meta upper answers = elim (Result-cases (read_telemetry upper answers)) [
    | inl (skipped, e) ↦
        rw (e, settle_telemetry) (_, skipped-entry, (refl, refl, refl, refl), (refl, refl))
    | inl (measured host parsed, e) ↦
        rw (e, settle_telemetry)
          (_, measured-entry host parsed, (refl, refl, refl, refl), (refl, omega arith, refl))
    | inr (message, e) ↦
        rw (e, settle_telemetry)
          (_, failed-entry message, (refl, refl, refl, refl), (refl, ground arith))
  ]
