-- ===== src/Poller/Recovery/Cooldown.antt =====
-- How often the host of a device is looked up, over all that the service does.
use merossity.Prelude.{ℕ, ◌+◌, ◌<◌, String}
use merossity.Prelude.{◌≡◌, refl, inl, inr, Bool, true, false}
use merossity.Prelude.{Option, none, some, List, [], ◌∷◌, arith}
use merossity.Prelude.{leb, str_eq}
use merossity.Prelude.{Bool-cases}
use merossity.Prelude.{All}
use merossity.Prelude.Maps.{lookup-insert_self}
use merossity.Prelude.Results.{Result-cases}
use merossity.Poller.Types.{PollReason}
use merossity.Poller.Service.{Service, ensure_meta, unsubscribe}
use merossity.Poller.Recovery.{start_resolve, resolve_cooldown_ms}
use merossity.Poller.Recovery.Entries.{
  Notes, boost_device-Notes, poll_now-Notes, start_poll-Notes, start_telemetry-Notes,
  finish_resolve-Notes, launch-Notes, sync_hosts-Notes,
}
use merossity.Poller.Recovery.Cooling.{
  settle_telemetry-Notes, end_tick-Notes, written-Notes, subscribe-Notes, settle_poll-cools,
}
use merossity.Poller.Reading.{Answers, read_state}
use merossity.Poller.Poll.{poll_failed, settle_poll, failure_meta, release_poll}
use merossity.Poller.Telemetry.{release_telemetry}
use merossity.Poller.Tick.{begin_tick}
use merossity.Poller.Operations.{
  Operation, polling_starts, polling_ends, metering_starts, metering_ends, boosted, polling_settles,
  metering_settles, look_up_ends, tick_begins, tick_launches, tick_syncs, tick_ends, asked_now,
  subscribed, unsubscribed, written_to, perform, look_ups,
}

-- Whether the look-up that an operation starts, if any, is one of the device.
abbrev pub looks_up : (uuid : String) → Option String → Bool
looks_up uuid none = false
looks_up uuid (some k) = str_eq k uuid

start_resolve-Notes :
    (uuid : String) (now : ℕ) (s : Service)
    → (start_resolve uuid now s).1 ≡ true
    → Notes uuid now (start_resolve uuid now s).0
unfolding start_resolve
start_resolve-Notes uuid now s h = ground (
  arith,
  lookup-insert_self uuid (record (ensure_meta uuid now s).1 { last_resolve_attempt_at = some now })
      (ensure_meta uuid now s).0.meta_by_uuid,
)

module _ (to_lower_case to_upper_case : String → String) (locale_le : String → String → Bool) where
  poll_failed-Notes :
      (uuid : String) (reason : PollReason) (started now r : ℕ) (message : String) (s : Service)
      → (poll_failed to_lower_case uuid reason started now r message s).2 ≡ true
      → Notes uuid now (poll_failed to_lower_case uuid reason started now r message s).0
  unfolding poll_failed
  poll_failed-Notes uuid reason started now r message s h =
      let meta = failure_meta started r (ensure_meta uuid started s).1 in
      elim (Bool-cases (leb 3 meta.failure_count)) [
        | inl e ↦ rw (poll_failed, e) (start_resolve-Notes uuid now _ (rw (poll_failed, e) at h))
        | inr e ↦ cc (rw (poll_failed, e) at h)
      ]

  settle_poll-Notes :
      (uuid : String) (reason : PollReason) (started now r : ℕ) (answers : Answers) (s : Service)
      → (settle_poll to_lower_case uuid reason started now r answers s).2 ≡ true
      → Notes uuid now (settle_poll to_lower_case uuid reason started now r answers s).0
  unfolding settle_poll
  settle_poll-Notes uuid reason started now r answers s h =
      elim (Result-cases (read_state uuid reason answers)) [
        | inl (reading, e) ↦ cc (rw (settle_poll, e) at h)
        | inr (message, e) ↦
            rw (settle_poll, e)
              (poll_failed-Notes uuid reason started now r message s (rw (settle_poll, e) at h))
      ]

  -- Each operation of the service keeps the note, and starts no look-up of the device.
  perform-cools :
      (uuid : String) (tried now : ℕ) (o : Operation) (s : Service)
      → Notes uuid tried s
      → 0 < tried
      → now < tried + resolve_cooldown_ms
      → let after = perform to_lower_case to_upper_case locale_le now o s in
        Notes uuid tried after.0 × (looks_up uuid after.1 ≡ false)
  unfolding perform release_poll release_telemetry unsubscribe begin_tick
  perform-cools uuid tried now (polling_starts k) s h p q =
      (start_poll-Notes uuid tried k now s h, refl)
  perform-cools uuid tried now (polling_ends k) s h p q = (h, refl)
  perform-cools uuid tried now (metering_starts k) s h p q =
      (start_telemetry-Notes uuid tried k now s h, refl)
  perform-cools uuid tried now (metering_ends k) s h p q = (h, refl)
  perform-cools uuid tried now (boosted k) s h p q = (boost_device-Notes uuid tried k now s h, refl)
  perform-cools uuid tried now (polling_settles k reason started r answers) s h p q =
      let (kept, quiet) =
        settle_poll-cools uuid tried to_lower_case k reason started now r answers s h p q in
      (kept, ground (arith, quiet))
  perform-cools uuid tried now (metering_settles k reason interval started answers) s h p q = (
    settle_telemetry-Notes uuid tried to_upper_case k reason interval started now answers s h,
    refl,
  )
  perform-cools uuid tried now (look_up_ends k outcome written) s h p q =
      (finish_resolve-Notes uuid tried k outcome written now s h, refl)
  perform-cools uuid tried now tick_begins s h p q = elim (Bool-cases s.tick_busy) [
    | inl e ↦ rw (perform, begin_tick, e) (h, refl)
    | inr e ↦ rw (perform, begin_tick, e) (h, refl)
  ]
  perform-cools uuid tried now tick_launches s h p q = (launch-Notes uuid tried now s h, refl)
  perform-cools uuid tried now (tick_syncs hosts) s h p q =
      (sync_hosts-Notes uuid tried now hosts s h, refl)
  perform-cools uuid tried now (tick_ends started) s h p q =
      (end_tick-Notes uuid tried started now s h, refl)
  perform-cools uuid tried now (asked_now wanted) s h p q =
      (poll_now-Notes uuid tried wanted now s h, refl)
  perform-cools uuid tried now subscribed s h p q = (subscribe-Notes uuid tried locale_le s h, refl)
  perform-cools uuid tried now (unsubscribed id) s h p q = (h, refl)
  perform-cools uuid tried now (written_to id m) s h p q = (written-Notes uuid tried id m s h, refl)

  look_ups-cool :
      (uuid : String) (tried : ℕ) (os : List (ℕ × Operation)) (s : Service)
      → Notes uuid tried s
      → 0 < tried
      → All (λ o. o.0 < tried + resolve_cooldown_ms) os
      → All (λ l. looks_up uuid l ≡ false) (look_ups to_lower_case to_upper_case locale_le os s)
  unfolding look_ups
  look_ups-cool uuid tried [] s h p q = tt
  look_ups-cool uuid tried ((now, o) ∷ os) s h p (q, qs) =
      let (kept, quiet) = perform-cools uuid tried now o s h p q in
      (quiet, look_ups-cool uuid tried os _ kept p qs)

  -- After a poll that fails has started a look-up of its device, at a time that is not 0, nothing
  -- that the service does within five minutes of that time starts another one for the device,
  -- whatever it is and in whatever order: polls and readings of it or of other devices, the end of
  -- the look-up with any outcome, ticks, boosts, requests and streams.
  pub start_resolve-cooldown :
      (uuid : String) (reason : PollReason) (started now random_value : ℕ) (answers : Answers)
      (s : Service) (os : List (ℕ × Operation))
      → 0 < now
      → let settled = settle_poll to_lower_case uuid reason started now random_value answers s in
        settled.2 ≡ true
        → All (λ o. o.0 < now + resolve_cooldown_ms) os
        → All
            (λ l. looks_up uuid l ≡ false)
            (look_ups to_lower_case to_upper_case locale_le os settled.0)
  start_resolve-cooldown uuid reason started now r answers s os p h q =
      look_ups-cool uuid now os _ (settle_poll-Notes uuid reason started now r answers s h) p q
