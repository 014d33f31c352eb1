-- ===== src/Poller/Tick.antt =====
-- `tick` and `syncKnownHosts` of packages/core/src/api/state-poller.ts: which devices are polled.
-- A tick that synchronises the hosts waits for the configuration; `begin_tick` and `sync_hosts`
-- are its parts before that and after, `launch` chooses and starts the polls, and `end_tick` is
-- the `finally`.
pub mod Launch
use merossity.Prelude.{ℕ, ◌+◌, ◌-◌, String}
use merossity.Prelude.{Bool, true, false, not}
use merossity.Prelude.{◌&&◌, Option, none, some, List, [], ◌∷◌, ◌++◌}
use merossity.Prelude.{ltb, leb, str_eq, if◌then◌else◌}
use merossity.Prelude.{is_some, get_or, length}
use merossity.Prelude.{drop, keep}
use merossity.Prelude.Maps.{lookup, insert}
use merossity.Prelude.Sorting.{sort}
use merossity.Poller.Types.{PollMeta, KnownHost}
use merossity.Poller.Service.{Service, poller_health, has_key, ensure_meta, get_status, broadcast}
use merossity.Poller.Poll.{start_poll}
use merossity.Poller.Telemetry.{start_telemetry}

abbrev pub poll_max_concurrency : ℕ
poll_max_concurrency = 6

abbrev pub telemetry_max_concurrency : ℕ
telemetry_max_concurrency = 4

abbrev pub sync_hosts_every_ms : ℕ
sync_hosts_every_ms = 5000

abbrev pub health_broadcast_every_ms : ℕ
health_broadcast_every_ms = 5000

-- The first tests: `none` where a tick is under way; the Boolean asks for a synchronisation.
unfoldable pub begin_tick : ℕ → Service → Option (Service × Bool)
begin_tick now s =
    if s.tick_busy
    then none
    else some (record s { tick_busy = true }, ltb sync_hosts_every_ms (now - s.last_sync_hosts_at))

unfoldable pub sync_loop : ℕ → List (String × KnownHost) → Service → Service
sync_loop now [] s = s
sync_loop now ((uuid, v) ∷ entries) s = sync_loop now entries (
    if str_eq v.host ""
    then s
    else (ensure_meta uuid now (record s { known_hosts = insert uuid v s.known_hosts })).0)

-- `hosts` are the entries of the configuration just read.
unfoldable pub sync_hosts : ℕ → List (String × KnownHost) → Service → Service
unfolding sync_loop
sync_hosts now hosts s =
    sync_loop now hosts (record s { last_sync_hosts_at = now; known_hosts = [] })

-- The first loop over `metaByUuid`.
abbrev pub is_pollable : Service → String → Bool
is_pollable s uuid = is_some (lookup uuid s.known_hosts) && not (has_key uuid s.in_flight)

abbrev pub is_due : Service → ℕ → String × PollMeta → Bool
is_due s now e = is_pollable s e.0 && leb e.1.next_due_at now

abbrev pub is_due_telemetry : Service → ℕ → String × PollMeta → Bool
is_due_telemetry s now e =
    is_pollable s e.0
    && (not (has_key e.0 s.telemetry_in_flight) && leb e.1.telemetry_next_due_at now)

-- The comparators read the due times from the map, which nothing changes during the sort.
unfoldable pub due_devices : Service → ℕ → List (String × PollMeta)
due_devices s now =
    sort (λ a b. leb a.1.next_due_at b.1.next_due_at) (keep (is_due s now) s.meta_by_uuid)

unfoldable pub due_telemetry : Service → ℕ → List (String × PollMeta)
due_telemetry s now =
    sort (λ a b. leb a.1.telemetry_next_due_at b.1.telemetry_next_due_at)
      (keep (is_due_telemetry s now) s.meta_by_uuid)

-- The `while` loops; the uuids that they start are returned, in order. An empty uuid ends a loop.
unfoldable pub launch_polls : ℕ → List (String × PollMeta) → Service → Service × List String
launch_polls now [] s = (s, [])
launch_polls now ((uuid, m) ∷ due) s =
    let s' = get_or (start_poll uuid now s) s in
    let rest = launch_polls now due s' in
    if ltb (length s.in_flight) poll_max_concurrency && not (str_eq uuid "")
    then (rest.0, uuid ∷ rest.1)
    else (s, [])

unfoldable pub launch_telemetry : ℕ → List (String × PollMeta) → Service → Service × List String
launch_telemetry now [] s = (s, [])
launch_telemetry now ((uuid, m) ∷ due) s =
    let s' = get_or (start_telemetry uuid now s) s in
    let rest = launch_telemetry now due s' in
    if ltb (length s.telemetry_in_flight) telemetry_max_concurrency && not (str_eq uuid "")
    then (rest.0, uuid ∷ rest.1)
    else (s, [])

-- The lists are both made before the first poll starts.
unfoldable pub launch : ℕ → Service → Service × List String × List String
launch now s =
    let due = due_devices s now in
    let due' = due_telemetry s now in
    let (s1, started) = launch_polls now due (record s { queue_depth = length due }) in
    let (s2, metered) = launch_telemetry now due' s1 in (s2, started, metered)

-- `shift` of the samples, after the push of the newest.
abbrev pub add_sample : List ℕ → ℕ → List ℕ
add_sample samples ms =
    let all' = samples ++ ms ∷ [] in if ltb 200 (length all') then drop 1 all' else all'

unfoldable pub broadcast_health : ℕ → Service → Service
broadcast_health now s =
    let s' = record s { last_health_broadcast_at = now } in
    broadcast (poller_health (get_status s')) s'

unfoldable pub end_tick : (started now : ℕ) → Service → Service
end_tick started now s =
    let s1 = record s {
      last_cycle_at = some now;
      cycle_samples = add_sample s.cycle_samples (now - started);
    } in
    let s2 =
      if ltb health_broadcast_every_ms (now - s1.last_health_broadcast_at)
      then broadcast_health now s1
      else s1 in
    record s2 { tick_busy = false }
