-- ===== src/Poller/Recovery/Entries.antt =====
-- The time of a device's last look-up, which no part of the service but `tryResolveHost` changes.
use merossity.Prelude.{ℕ, String}
use merossity.Prelude.{◌≡◌, refl, inl, inr, Bool, true, false}
use merossity.Prelude.{Option, none, some, List, [], ◌∷◌, arith, eq_iff}
use merossity.Prelude.{str_eq}
use merossity.Prelude.{Bool-cases, get_or, map_option}
use merossity.Prelude.Maps.{Map, insert, lookup, lookup-insert}
use merossity.Prelude.Results.{Result, ok, err}
use merossity.Poller.Types.{PollMeta, PollReason, KnownHost, DeviceStateDto, create_meta}
use merossity.Poller.Service.{Service, ensure_meta, boost_device}
use merossity.Poller.Recovery.{finish_resolve}
use merossity.Poller.Poll.{start_poll, poll_succeeded, success_meta}
use merossity.Poller.Poll.Schedule.{publish_state-meta_by_uuid}
use merossity.Poller.PollNow.{boost_all, poll_now, poll_now_uuids}
use merossity.Poller.Telemetry.{start_telemetry, telemetry_skipped}
use merossity.Poller.Tick.{sync_loop, sync_hosts, launch_polls, launch_telemetry, launch}

module _ (uuid : String) (tried : ℕ) where
  -- The last look-up of the device is noted as that of the time.
  abbrev pub Noted : Map PollMeta → Type 0
  Noted metas =
      map_option (λ meta. meta.last_resolve_attempt_at) (lookup uuid metas) ≡ some (some tried)

  abbrev pub Notes : Service → Type 0
  Notes s = Noted s.meta_by_uuid

  pub ensure_meta-Notes :
      (k : String) (now : ℕ) (s : Service) → Notes s → Notes (ensure_meta k now s).0
  unfolding ensure_meta
  ensure_meta-Notes k now s h =
      ground (arith, h, eq_iff k uuid, lookup-insert k uuid (create_meta now) s.meta_by_uuid)

  -- An entry that is made, where there is none, and then edited.
  pub edit-Notes :
      (k : String) (now : ℕ) (s : Service) (metas : Map PollMeta) (meta : PollMeta)
      → metas ≡ (ensure_meta k now s).0.meta_by_uuid
      → meta.last_resolve_attempt_at ≡ (ensure_meta k now s).1.last_resolve_attempt_at
      → Notes s
      → Noted (insert k meta metas)
  unfolding ensure_meta
  edit-Notes k now s metas meta same kept h = ground (
    arith,
    h,
    same,
    kept,
    eq_iff k uuid,
    lookup-insert k uuid meta metas,
    lookup-insert k uuid (create_meta now) s.meta_by_uuid,
  )

  pub boost_device-Notes :
      (k : String) (now : ℕ) (s : Service) → Notes s → Notes (boost_device k now s)
  unfolding boost_device
  boost_device-Notes k now s h = elim (Bool-cases (str_eq k "")) [
    | inl e ↦ rw (boost_device, e) h
    | inr e ↦ rw (boost_device, e) (edit-Notes k now s _ _ refl refl h)
  ]

  boost_all-Notes :
      (ks : List String) (now : ℕ) (s : Service) → Notes s → Notes (boost_all ks now s)
  unfolding boost_all
  boost_all-Notes [] now s h = h
  boost_all-Notes (k ∷ ks) now s h =
      boost_all-Notes ks now (boost_device k now s) (boost_device-Notes k now s h)

  pub poll_now-Notes :
      (wanted : Option (List String)) (now : ℕ) (s : Service)
      → Notes s
      → Notes (poll_now wanted now s).0
  unfolding poll_now
  poll_now-Notes wanted now s h = boost_all-Notes (poll_now_uuids wanted s.known_hosts) now s h

  pub start_poll-Notes :
      (k : String) (now : ℕ) (s : Service) → Notes s → Notes (get_or (start_poll k now s) s)
  unfolding start_poll
  start_poll-Notes k now s h = ground (arith, h, ensure_meta-Notes k now s h)

  pub start_telemetry-Notes :
      (k : String) (now : ℕ) (s : Service) → Notes s → Notes (get_or (start_telemetry k now s) s)
  unfolding start_telemetry
  start_telemetry-Notes k now s h = ground (arith, h, ensure_meta-Notes k now s h)

  success_meta-attempt :
      (changed : Bool) (started r : ℕ) (meta : PollMeta)
      → (success_meta changed started r meta).last_resolve_attempt_at ≡ meta.last_resolve_attempt_at
  unfolding success_meta
  success_meta-attempt true started r meta = refl
  success_meta-attempt false started r meta = refl

  pub poll_succeeded-Notes :
      (k : String) (reason : PollReason) (started now r : ℕ) (reading : DeviceStateDto)
      (s : Service)
      → Notes s
      → Notes (poll_succeeded k reason started now r reading s).0
  unfolding poll_succeeded
  poll_succeeded-Notes k reason started now r reading s h =
      edit-Notes k started s _ _ (publish_state-meta_by_uuid k reason _ (ensure_meta k started s).0)
        (success_meta-attempt _ started r (ensure_meta k started s).1) h

  pub finish_resolve-Notes :
      (k : String) (outcome : Result (Option KnownHost)) (written : Bool) (now : ℕ) (s : Service)
      → Notes s
      → Notes (finish_resolve k outcome written now s)
  unfolding finish_resolve
  finish_resolve-Notes k (err e) written now s h = h
  finish_resolve-Notes k (ok none) written now s h = h
  finish_resolve-Notes k (ok (some host)) false now s h = h
  finish_resolve-Notes k (ok (some host)) true now s h = edit-Notes k now _ _ _ refl refl h

  pub telemetry_skipped-Notes :
      (k : String) (interval started : ℕ) (s : Service)
      → Notes s
      → Notes (telemetry_skipped k interval started s)
  unfolding telemetry_skipped
  telemetry_skipped-Notes k interval started s h = edit-Notes k started s _ _ refl refl h

  launch_polls-Notes :
      (now : ℕ) (due : List (String × PollMeta)) (s : Service)
      → Notes s
      → Notes (launch_polls now due s).0
  unfolding launch_polls
  launch_polls-Notes now [] s h = h
  launch_polls-Notes now ((k, m) ∷ due) s h =
      let rest =
        launch_polls-Notes now due (get_or (start_poll k now s) s) (start_poll-Notes k now s h) in
      ground (arith, h, rest)

  launch_telemetry-Notes :
      (now : ℕ) (due : List (String × PollMeta)) (s : Service)
      → Notes s
      → Notes (launch_telemetry now due s).0
  unfolding launch_telemetry
  launch_telemetry-Notes now [] s h = h
  launch_telemetry-Notes now ((k, m) ∷ due) s h =
      let s' = get_or (start_telemetry k now s) s in
      let rest = launch_telemetry-Notes now due s' (start_telemetry-Notes k now s h) in
      ground (arith, h, rest)

  pub launch-Notes : (now : ℕ) (s : Service) → Notes s → Notes (launch now s).0
  unfolding launch
  launch-Notes now s h = launch_telemetry-Notes now _ _ (launch_polls-Notes now _ _ h)

  sync_loop-Notes :
      (now : ℕ) (hosts : List (String × KnownHost)) (s : Service)
      → Notes s
      → Notes (sync_loop now hosts s)
  unfolding sync_loop
  sync_loop-Notes now [] s h = h
  sync_loop-Notes now ((k, v) ∷ hosts) s h =
      sync_loop-Notes now hosts _ (elim (Bool-cases (str_eq v.host "")) [
        | inl e ↦ rw e h
        | inr e ↦
            rw e (ensure_meta-Notes k now (record s { known_hosts = insert k v s.known_hosts }) h)
      ])

  pub sync_hosts-Notes :
      (now : ℕ) (hosts : List (String × KnownHost)) (s : Service)
      → Notes s
      → Notes (sync_hosts now hosts s)
  unfolding sync_hosts
  sync_hosts-Notes now hosts s h =
      sync_loop-Notes now hosts (record s { last_sync_hosts_at = now; known_hosts = [] }) h
