-- ===== src/Poller/Service.antt =====
-- The state of `StatePollerServiceImpl` in packages/core/src/api/state-poller.ts and the methods
-- that answer at once. `Date.now()` and `Math.random()` are arguments. A map of promises is the
-- list of its keys: a call that finds its uuid there waits for the other's result. What is written
-- to the subscribers' streams is the list `sent`, newest last; a stream that was closed by its
-- reader is listed in `closed`, and writing to it throws.
pub mod Frames
use merossity.Prelude.{ℕ, ◌+◌, ◌-◌, ◌*◌, ◌/◌, min, String}
use merossity.Prelude.{Bool, true, false, not}
use merossity.Prelude.{Option, none, some, List, [], ◌∷◌, ◌++◌, map}
use merossity.Prelude.{leb, ◌==◌, str_eq, if◌then◌else◌}
use merossity.Prelude.{get_or, length, get_elem?}
use merossity.Prelude.{any, keep}
use merossity.Prelude.Maps.{Map, lookup, insert}
use merossity.Prelude.Sorting.{sort}
use merossity.Poller.Types.{
  DeviceStateDto, DevicePowerDto, PollMeta, KnownHost, PollerStats, create_meta,
}
use merossity.Poller.Backoff.{boost_window_ms}

-- The events of the stream, by their payload.
pub data Message : Type 0 where
  heartbeat : ℕ → Message
  snapshot : List DeviceStateDto → Message
  power_snapshot : List DevicePowerDto → Message
  poller_health : PollerStats → Message
  device_state device_stale : DeviceStateDto → Message
  device_power device_power_stale : DevicePowerDto → Message

pub record Service : Type 0 where
  pub state_by_uuid : Map DeviceStateDto
  pub meta_by_uuid : Map PollMeta
  pub known_hosts : Map KnownHost
  pub in_flight : List String
  pub power_by_uuid : Map DevicePowerDto
  pub telemetry_in_flight : List String
  pub resolving : List String
  pub subscribers : List ℕ
  pub last_sync_hosts_at : ℕ
  pub last_cycle_at : Option ℕ
  pub last_health_broadcast_at : ℕ
  pub queue_depth : ℕ
  pub cycle_samples : List ℕ
  pub tick_busy : Bool
  pub next_subscriber_id : ℕ
  pub closed : List ℕ
  pub sent : List (ℕ × Message)

unfoldable pub new_service : Service
new_service = record {
  state_by_uuid = [];
  meta_by_uuid = [];
  known_hosts = [];
  in_flight = [];
  power_by_uuid = [];
  telemetry_in_flight = [];
  resolving = [];
  subscribers = [];
  last_sync_hosts_at = 0;
  last_cycle_at = none;
  last_health_broadcast_at = 0;
  queue_depth = 0;
  cycle_samples = [];
  tick_busy = false;
  next_subscriber_id = 1;
  closed = [];
  sent = [];
}

-- Membership and removal in the key lists.
abbrev pub has_key : String → List String → Bool
has_key uuid keys = any (λ k. str_eq k uuid) keys

abbrev pub remove_key : String → List String → List String
remove_key uuid keys = keep (λ k. not (str_eq k uuid)) keys

-- `values[floor(p / 100 * length)]` of the sorted values, the index cut to the list. The callers
-- give 50 and 95, at which the double product is exact for the 200 samples that are kept.
unfoldable pub percentile : List ℕ → ℕ → ℕ
percentile [] p = 0
percentile (v ∷ vs) p =
    let sorted = sort leb (v ∷ vs) in
    get_or (get_elem? sorted (min (length sorted - 1) (p * length sorted / 100))) 0

unfoldable pub get_status : Service → PollerStats
get_status s = record {
  running = true;
  in_flight = length s.in_flight;
  queue_depth = s.queue_depth;
  cycle_ms_p50 = percentile s.cycle_samples 50;
  cycle_ms_p95 = percentile s.cycle_samples 95;
  last_cycle_at = s.last_cycle_at;
  active_clients = length s.subscribers;
}

-- The entry of a uuid, made at `now` if there is none.
unfoldable pub ensure_meta : String → ℕ → Service → Service × PollMeta
ensure_meta uuid now s = elim (lookup uuid s.meta_by_uuid) [
  | some existing ↦ (s, existing)
  | none ↦
      let created = create_meta now in
      (record s { meta_by_uuid = insert uuid created s.meta_by_uuid }, created)
]

-- An assignment to fields of the entry: the entry is shared with the map.
abbrev pub set_meta : String → PollMeta → Service → Service
set_meta uuid meta s = record s { meta_by_uuid = insert uuid meta s.meta_by_uuid }

unfoldable pub boost_device : String → ℕ → Service → Service
boost_device uuid now s =
    if str_eq uuid ""
    then s
    else let (s', meta) = ensure_meta uuid now s in
      set_meta uuid
        (record meta { boost_until_at = some (now + boost_window_ms); next_due_at = now }) s'

abbrev pub has_id : ℕ → List ℕ → Bool
has_id id ids = any (λ i. i == id) ids

-- A write that throws drops the subscriber.
unfoldable pub push_to_subscriber : ℕ → Message → Service → Service
push_to_subscriber id message s =
    if not (has_id id s.subscribers)
    then s
    else if has_id id s.closed
    then record s { subscribers = keep (λ i. not (i == id)) s.subscribers }
    else record s { sent = s.sent ++ (id, message) ∷ [] }

unfoldable pub broadcast_to : List ℕ → Message → Service → Service
broadcast_to [] message s = s
broadcast_to (id ∷ ids) message s = broadcast_to ids message (push_to_subscriber id message s)

-- The keys are taken once: a push removes none but the current one.
unfoldable pub broadcast : Message → Service → Service
unfolding broadcast_to
broadcast message s = broadcast_to s.subscribers message s

-- `createStreamResponse`, where the stream starts: the three first messages. The two snapshots are
-- sorted by `localeCompare` of the uuids, which the engine gives.
module _ (locale_le : String → String → Bool) where
  unfoldable pub subscribe : Service → Service
  subscribe s =
      let id = s.next_subscriber_id in
      let s1 = record s { next_subscriber_id = id + 1; subscribers = s.subscribers ++ id ∷ [] } in
      let s2 =
        push_to_subscriber id
          (snapshot (sort (λ a b. locale_le a.uuid b.uuid) (map (λ e. e.1) s1.state_by_uuid))) s1 in
      let s3 =
        push_to_subscriber id
          (power_snapshot (sort (λ a b. locale_le a.uuid b.uuid) (map (λ e. e.1) s2.power_by_uuid)))
          s2 in
      push_to_subscriber id (poller_health (get_status s3)) s3

-- The stream's `cancel`, after which a write throws.
unfoldable pub unsubscribe : ℕ → Service → Service
unsubscribe id s = record s {
  closed = id ∷ s.closed;
  subscribers = keep (λ i. not (i == id)) s.subscribers;
}
