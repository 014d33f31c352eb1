-- ===== src/Tests/Polling.antt =====
-- Polls of packages/core/src/api/state-poller.ts, worked out.
use merossity.Prelude.{All, List, ℕ}
use merossity.Prelude.{◌≤◌, ◌<◌, max, String}
use merossity.Prelude.{◌≡◌, refl, ◌↔◌, ◌⊎◌, true, false}
use merossity.Prelude.{none, some, [], ◌∷◌, ◌++◌, arith}
use merossity.Prelude.{length}
use merossity.Prelude.{keep}
use mathlib.Core.List.{Perm}
use merossity.Prelude.Maps.{lookup, insert}
use merossity.Prelude.Results.{ok, err}
use merossity.Prelude.Sorting.{IsSorted}
use merossity.Poller.Types.{togglex, DeviceStateDto, poller, PollMeta}
use merossity.Poller.Backoff.{next_interval_ms}
use merossity.Poller.Backoff.Bounds.{next_interval_ms_bounds}
use merossity.Poller.Change.{has_material_state_change}
use merossity.Poller.Change.Material.{material, has_material_state_change_iff}
use merossity.Poller.Keys.{IsDistinct}
use merossity.Poller.Service.{Service, device_state}
use merossity.Poller.Reading.{Answers, read_state, stale_state, require_lan_key}
use merossity.Poller.Poll.{settle_poll, poll_failed, failure_meta, publish_stale}
use merossity.Poller.Poll.Schedule.{Succeeded, Failed, settle_poll-meta}
use merossity.Poller.Tick.{is_due, due_devices, poll_max_concurrency, launch_polls}
use merossity.Poller.Tick.Launch.{uuids, waiting, due_before, launch_polls_fair}
use merossity.Poller.Stream.{view}
use merossity.Poller.Stream.Synced.{Reads, Synced}
use merossity.Poller.Stream.Settle.{settle_poll-Synced}
use merossity.Poller.Types.{telemetry_poller}
use merossity.Poller.Service.{ensure_meta, broadcast, push_to_subscriber}
use merossity.Poller.Recovery.{start_resolve}
use merossity.Poller.Recovery.Cooldown.{looks_up, start_resolve-cooldown}
use merossity.Poller.Operations.{Operation, look_up_ends, boosted, polling_settles, look_ups}
use merossity.Poller.Telemetry.{TelemetryAnswers, read_telemetry, settle_telemetry}
use merossity.Poller.Telemetry.Cadence.{PollsAlike, Follows, settle_telemetry-meta}

abbrev plug : DeviceStateDto
plug = record {
  uuid = "plug";
  host = "10.0.0.5";
  kind = togglex;
  channel = 0;
  onoff = true;
  channels = record { channel = 0; onoff = true } ∷ [];
  lights = [];
  light = none;
  timerx_digest = [];
  triggerx_digest = [];
  updated_at = 5;
  source = poller;
  stale = false;
  error = none;
}

abbrev plug_meta : PollMeta
plug_meta = record {
  next_due_at = 10;
  failure_count = 2;
  last_success_at = some 5;
  last_change_at = some 5;
  last_resolve_attempt_at = none;
  boost_until_at = none;
  telemetry_next_due_at = 0;
  telemetry_failure_count = 0;
  telemetry_last_success_at = none;
}

-- A service with one device, one reader, and one message sent.
abbrev small_service : Service
small_service = record {
  state_by_uuid = ("plug", plug) ∷ [];
  meta_by_uuid = ("plug", plug_meta) ∷ [];
  known_hosts = ("plug", record { host = "10.0.0.5"; mac = none }) ∷ [];
  in_flight = "other" ∷ [];
  power_by_uuid = [];
  telemetry_in_flight = [];
  resolving = [];
  subscribers = 1 ∷ [];
  last_sync_hosts_at = 0;
  last_cycle_at = none;
  last_health_broadcast_at = 0;
  queue_depth = 0;
  cycle_samples = [];
  tick_busy = false;
  next_subscriber_id = 2;
  closed = [];
  sent = (1, device_state plug) ∷ [];
}

-- The plug answers that it was switched off.
abbrev off_answers : Answers
off_answers = record {
  host_entry = some "10.0.0.5";
  cloud_key = some "key";
  env_key = none;
  system_all = ok (record {
    togglex_of = some (record { channel = 0; onoff = false } ∷ []);
    light_of = none;
    timerx_of = [];
    triggerx_of = [];
  });
}

small_service-Reads : Reads 1 small_service
small_service-Reads = record { open_stream = (refl, refl); distinct = (refl, tt) }

small_service-Synced : Synced 1 small_service
unfolding view lookup insert
small_service-Synced u = refl

settle_poll-Synced_example :
    Reads 1 (settle_poll (λ t. t) "plug" poller 10 12 0 off_answers small_service).0
    × Synced 1 (settle_poll (λ t. t) "plug" poller 10 12 0 off_answers small_service).0
settle_poll-Synced_example =
    settle_poll-Synced (λ t. t) 1 "plug" poller 10 12 0 off_answers small_service
      small_service-Reads small_service-Synced

launch_polls_fair_example :
    let due = due_devices small_service 20 in
    let after = launch_polls 20 due small_service in
    Perm due (keep (is_due small_service 20) small_service.meta_by_uuid)
    × IsSorted due_before due
    × (after.1 ++ uuids (waiting 20 due small_service) ≡ uuids due)
    × ((poll_max_concurrency ≤ length after.0.in_flight) ⊎ (waiting 20 due small_service ≡ []))
    × (length after.0.in_flight ≤ max poll_max_concurrency 1)
    × IsDistinct after.0.in_flight
launch_polls_fair_example = launch_polls_fair small_service 20 ((λ e. cc), tt) (refl, tt)

plug-entry : lookup "plug" small_service.meta_by_uuid ≡ some plug_meta
unfolding lookup
plug-entry = refl

settle_poll-meta_example :
    (after : PollMeta) × (lookup "plug"
        (settle_poll (λ t. t) "plug" poller 10 12 0 off_answers small_service).0.meta_by_uuid
      ≡ some after)
    × ((((reading : DeviceStateDto) × (read_state "plug" poller off_answers ≡ ok reading))
          × Succeeded 10 plug_meta after)
        ⊎ (((message : String) × (read_state "plug" poller off_answers ≡ err message))
            × Failed 10 plug_meta after))
settle_poll-meta_example =
    settle_poll-meta "plug" poller 10 12 0 small_service plug-entry (λ t. t) off_answers

has_material_state_change_iff_example :
    (has_material_state_change none (record plug { updated_at = 9 }) ≡ true)
    × ((has_material_state_change (some plug) (record plug { updated_at = 9 }) ≡ false)
        ↔ (material plug ≡ material (record plug { updated_at = 9 })))
has_material_state_change_iff_example =
    has_material_state_change_iff plug (record plug { updated_at = 9 })

next_interval_ms_bounds_example :
    (7200 ≤ next_interval_ms plug_meta 100 0)
    × (next_interval_ms plug_meta 100 0 ≤ 300000)
    × (((0 < 2) × (30000 ≤ next_interval_ms plug_meta 100 0))
        ⊎ ((plug_meta.failure_count ≡ 0) × (next_interval_ms plug_meta 100 0 ≤ 51750)))
next_interval_ms_bounds_example = next_interval_ms_bounds plug_meta 100 0

-- The plug failed twice, and fails again.
abbrev failing_service : Service
failing_service = record small_service {
  meta_by_uuid = ("plug", record plug_meta { failure_count = 2 }) ∷ [];
}

abbrev no_answers : Answers
no_answers = record off_answers { system_all = err "timeout" }

plug-looked_up : (settle_poll (λ t. t) "plug" poller 100 102 0 no_answers failing_service).2 ≡ true
unfolding settle_poll poll_failed failure_meta publish_stale broadcast push_to_subscriber
    has_material_state_change stale_state start_resolve ensure_meta insert lookup read_state
    require_lan_key
plug-looked_up = refl

-- The look-up finds nothing, and the plug is boosted and fails again.
abbrev later_operations : List (ℕ × Operation)
later_operations =
    (200, look_up_ends "plug" (ok none) false)
    ∷ (300, boosted "plug")
    ∷ (300000, polling_settles "plug" poller 299000 0 no_answers)
    ∷ []

start_resolve-cooldown_example :
    All
      (λ l. looks_up "plug" l ≡ false)
      (look_ups
        (λ t. t)
        (λ t. t)
        (λ a b. true)
        later_operations
        (settle_poll (λ t. t) "plug" poller 100 102 0 no_answers failing_service).0)
start_resolve-cooldown_example =
    start_resolve-cooldown (λ t. t) (λ t. t) (λ a b. true) "plug" poller 100 102 0 no_answers
      failing_service later_operations (omega arith) plug-looked_up
      (omega arith, (omega arith, (omega arith, tt)))

abbrev no_electricity : TelemetryAnswers
no_electricity = record {
  host_entry = some "10.0.0.5";
  device_type = some "mss310";
  cloud_key = some "key";
  env_key = none;
  electricity = ok none;
}

settle_telemetry-meta_example :
    (after : PollMeta) × (lookup "plug"
        (settle_telemetry
          (λ t. t)
          "plug"
          telemetry_poller
          10000
          20
          25
          no_electricity
          small_service).meta_by_uuid
      ≡ some after)
    × PollsAlike plug_meta after
    × Follows (read_telemetry (λ t. t) no_electricity) 10000 20 plug_meta after
settle_telemetry-meta_example =
    settle_telemetry-meta "plug" telemetry_poller 10000 20 25 small_service plug-entry (λ t. t)
      no_electricity
