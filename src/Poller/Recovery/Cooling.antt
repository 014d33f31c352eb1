-- ===== src/Poller/Recovery/Cooling.antt =====
-- A device whose last look-up is noted is not looked up by the parts of the service that read it.
use merossity.Prelude.{ℕ, ◌+◌, ◌-◌, ◌<◌, String}
use merossity.Prelude.{◌≡◌, refl, inl, inr, Bool, true, false}
use merossity.Prelude.{◌&&◌, some, arith, eq_iff}
use merossity.Prelude.{ltb, leb, str_eq}
use merossity.Prelude.{Bool-cases, Option-cases, map_option}
use merossity.Prelude.Maps.{lookup, insert, lookup-insert}
use merossity.Prelude.Results.{Result-cases}
use merossity.Poller.Types.{PollReason, TelemetryReason}
use merossity.Poller.Service.{
  Service, has_key, set_meta, Message, ensure_meta, push_to_subscriber, subscribe,
}
use merossity.Poller.Service.Frames.{ensure_meta_of_entry, broadcast-meta_by_uuid}
use merossity.Poller.Recovery.{start_resolve, resolve_cooldown_ms}
use merossity.Poller.Reading.{Answers, read_state, stale_state}
use merossity.Poller.Poll.{poll_failed, settle_poll, publish_stale, failure_meta}
use merossity.Poller.Poll.Schedule.{publish_stale-meta_by_uuid}
use merossity.Poller.Telemetry.{
  TelemetryAnswers, Electricity, skipped, measured, telemetry_measured, telemetry_failed,
  settle_telemetry, schedule_telemetry, read_telemetry,
}
use merossity.Poller.Tick.{end_tick, broadcast_health}
use merossity.Poller.Recovery.Entries.{
  Notes, ensure_meta-Notes, edit-Notes, poll_succeeded-Notes, telemetry_skipped-Notes,
}

module _ (uuid : String) (tried : ℕ) where
  -- The device itself is cooling down.
  own-cools :
      (now : ℕ) (s : Service)
      → Notes uuid tried s
      → 0 < tried
      → now < tried + resolve_cooldown_ms
      → start_resolve uuid now s ≡ (s, false)
  unfolding start_resolve
  own-cools now s h p q = elim (Option-cases (lookup uuid s.meta_by_uuid)) [
    | inl e ↦ cc (rw e at h)
    | inr (meta, e) ↦
        let at' : meta.last_resolve_attempt_at ≡ some tried = cc (rw e at h) in
        let early : ltb (now - tried) resolve_cooldown_ms ≡ true = ground (arith, q) in
        let late : ltb 0 tried ≡ true = ground (arith, p) in
        elim (Bool-cases (has_key uuid s.resolving)) [
          | inl f ↦ rw (start_resolve, f) refl
          | inr f ↦ rw (start_resolve, f, ensure_meta_of_entry uuid now s e, at', late, early) refl
        ]
  ]

  -- A look-up of another device.
  other-Notes :
      (k : String) (now : ℕ) (s : Service)
      → Notes uuid tried s
      → str_eq k uuid ≡ false
      → Notes uuid tried (start_resolve k now s).0
  unfolding start_resolve
  other-Notes k now s h other =
      let made = ensure_meta-Notes uuid tried k now s h in
      let s' = (ensure_meta k now s).0 in
      let meta = (ensure_meta k now s).1 in
      ground (
        arith,
        h,
        made,
        other,
        lookup-insert k uuid (record meta { last_resolve_attempt_at = some now }) s'.meta_by_uuid,
      )

  start_resolve-cools :
      (k : String) (now : ℕ) (s : Service)
      → Notes uuid tried s
      → 0 < tried
      → now < tried + resolve_cooldown_ms
      → Notes uuid tried (start_resolve k now s).0
        × ((str_eq k uuid && (start_resolve k now s).1) ≡ false)
  start_resolve-cools k now s h p q = elim (Bool-cases (str_eq k uuid)) [
    | inl e ↦
        let is : k ≡ uuid = ground (arith, e, eq_iff k uuid) in
        let own = own-cools now s h p q in
        let same : start_resolve k now s ≡ (s, false) = rw is own in rw (e, same) (h, refl)
    | inr e ↦ rw e (other-Notes k now s h e, refl)
  ]

  telemetry_measured-Notes :
      (k : String) (reason : TelemetryReason) (interval started now : ℕ) (host : String)
      (parsed : Electricity) (s : Service)
      → Notes uuid tried s
      → Notes uuid tried (telemetry_measured k reason interval started now host parsed s)
  unfolding telemetry_measured schedule_telemetry
  telemetry_measured-Notes k reason interval started now host parsed s h =
      edit-Notes uuid tried k started s _ _ (grind (arith, broadcast-meta_by_uuid)) refl h

  telemetry_failed-meta_by_uuid :
      (k : String) (reason : TelemetryReason) (interval started now : ℕ) (message : String)
      (s : Service)
      → let meta = (ensure_meta k started s).1 in
        (telemetry_failed k reason interval started now message s).meta_by_uuid
        ≡ insert k
            (schedule_telemetry interval started
              (record meta { telemetry_failure_count = meta.telemetry_failure_count + 1 }))
            (ensure_meta k started s).0.meta_by_uuid
  unfolding telemetry_failed
  telemetry_failed-meta_by_uuid k reason interval started now message s =
      grind (arith, broadcast-meta_by_uuid)

  telemetry_failed-Notes :
      (k : String) (reason : TelemetryReason) (interval started now : ℕ) (message : String)
      (s : Service)
      → Notes uuid tried s
      → Notes uuid tried (telemetry_failed k reason interval started now message s)
  unfolding schedule_telemetry
  telemetry_failed-Notes k reason interval started now message s h =
      let meta = (ensure_meta k started s).1 in
      rw (telemetry_failed-meta_by_uuid k reason interval started now message s) (
        edit-Notes uuid tried k started s _
          (schedule_telemetry interval started
            (record meta { telemetry_failure_count = meta.telemetry_failure_count + 1 }))
          refl refl h)

  pub settle_telemetry-Notes :
      (to_upper_case : String → String) (k : String) (reason : TelemetryReason)
      (interval started now : ℕ) (answers : TelemetryAnswers) (s : Service)
      → Notes uuid tried s
      → Notes uuid tried (settle_telemetry to_upper_case k reason interval started now answers s)
  unfolding settle_telemetry
  settle_telemetry-Notes to_upper_case k reason interval started now answers s h =
      elim (Result-cases (read_telemetry to_upper_case answers)) [
        | inr (message, e) ↦
            rw (settle_telemetry, e)
              (telemetry_failed-Notes k reason interval started now message s h)
        | inl (skipped, e) ↦
            rw (settle_telemetry, e) (telemetry_skipped-Notes uuid tried k interval started s h)
        | inl (measured host parsed, e) ↦
            rw (settle_telemetry, e)
              (telemetry_measured-Notes k reason interval started now host parsed s h)
      ]

  pub end_tick-Notes :
      (started now : ℕ) (s : Service)
      → Notes uuid tried s
      → Notes uuid tried (end_tick started now s)
  unfolding end_tick broadcast_health
  end_tick-Notes started now s h = grind (arith, h, broadcast-meta_by_uuid)

  pub written-Notes :
      (id : ℕ) (m : Message) (s : Service)
      → Notes uuid tried s
      → Notes uuid tried (push_to_subscriber id m s)
  unfolding push_to_subscriber
  written-Notes id m s h = ground (arith, h)

  pub subscribe-Notes :
      (locale_le : String → String → Bool) (s : Service)
      → Notes uuid tried s
      → Notes uuid tried (subscribe locale_le s)
  unfolding subscribe
  subscribe-Notes locale_le s h = written-Notes _ _ _ (written-Notes _ _ _ (written-Notes _ _ _ h))

  module _ (to_lower_case : String → String) where
    poll_failed-cools :
        (k : String) (reason : PollReason) (started now r : ℕ) (message : String) (s : Service)
        → Notes uuid tried s
        → 0 < tried
        → now < tried + resolve_cooldown_ms
        → let after = poll_failed to_lower_case k reason started now r message s in
          Notes uuid tried after.0 × ((str_eq k uuid && after.2) ≡ false)
    unfolding poll_failed failure_meta
    poll_failed-cools k reason started now r message s h p q =
        let (s0, meta0) = ensure_meta k started s in
        let meta = failure_meta started r meta0 in
        let s1 = set_meta k meta s0 in
        let stale_next =
          stale_state k reason message now (lookup k s1.state_by_uuid)
            (map_option (λ h. h.host) (lookup k s1.known_hosts)) in
        let s2 = publish_stale k stale_next s1 in
        let noted : Notes uuid tried s2 =
          rw (publish_stale-meta_by_uuid k stale_next s1)
            (edit-Notes uuid tried k started s _ meta refl refl h) in
        elim (Bool-cases (leb 3 meta.failure_count)) [
          | inl e ↦ rw (poll_failed, e) (start_resolve-cools k now s2 noted p q)
          | inr e ↦ rw (poll_failed, e) (noted, ground arith)
        ]

    pub settle_poll-cools :
        (k : String) (reason : PollReason) (started now r : ℕ) (answers : Answers) (s : Service)
        → Notes uuid tried s
        → 0 < tried
        → now < tried + resolve_cooldown_ms
        → let after = settle_poll to_lower_case k reason started now r answers s in
          Notes uuid tried after.0 × ((str_eq k uuid && after.2) ≡ false)
    unfolding settle_poll
    settle_poll-cools k reason started now r answers s h p q =
        elim (Result-cases (read_state k reason answers)) [
          | inl (reading, e) ↦
              rw (settle_poll, e)
                (poll_succeeded-Notes uuid tried k reason started now r reading s h, ground arith)
          | inr (message, e) ↦
              rw (settle_poll, e) (poll_failed-cools k reason started now r message s h p q)
        ]
