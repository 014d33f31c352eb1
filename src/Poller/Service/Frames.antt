-- ===== src/Poller/Service/Frames.antt =====
-- What a broadcast and the making of an entry leave alone.
use merossity.Prelude.{ℕ, String}
use merossity.Prelude.{◌≡◌, refl, ap}
use merossity.Prelude.{some, List, [], ◌∷◌, arith}
use merossity.Prelude.Maps.{lookup, lookup-insert_self}
use merossity.Poller.Types.{create_meta, PollMeta}
use merossity.Poller.Service.{
  Service, Message, broadcast, broadcast_to, push_to_subscriber, ensure_meta,
}

-- A write to a subscriber changes the subscribers and what was sent, and nothing else.
pub push_to_subscriber_frame :
    (id : ℕ) (m : Message) (s : Service)
    → push_to_subscriber id m s ≡ record s {
      subscribers = (push_to_subscriber id m s).subscribers;
      sent = (push_to_subscriber id m s).sent;
    }
unfolding push_to_subscriber
push_to_subscriber_frame id m s = ground arith

broadcast_to_frame :
    (ids : List ℕ) (m : Message) (s : Service)
    → broadcast_to ids m s ≡ record s {
      subscribers = (broadcast_to ids m s).subscribers;
      sent = (broadcast_to ids m s).sent;
    }
unfolding broadcast_to
broadcast_to_frame [] m s = refl
broadcast_to_frame (id ∷ ids) m s =
    cc (broadcast_to_frame ids m (push_to_subscriber id m s), push_to_subscriber_frame id m s)

module _ (m : Message) (s : Service) where
  pub broadcast-state_by_uuid : (broadcast m s).state_by_uuid ≡ s.state_by_uuid
  unfolding broadcast
  broadcast-state_by_uuid = ap (λ t. t.state_by_uuid) (broadcast_to_frame s.subscribers m s)

  pub broadcast-meta_by_uuid : (broadcast m s).meta_by_uuid ≡ s.meta_by_uuid
  unfolding broadcast
  broadcast-meta_by_uuid = ap (λ t. t.meta_by_uuid) (broadcast_to_frame s.subscribers m s)

  pub broadcast-known_hosts : (broadcast m s).known_hosts ≡ s.known_hosts
  unfolding broadcast
  broadcast-known_hosts = ap (λ t. t.known_hosts) (broadcast_to_frame s.subscribers m s)

  pub broadcast-in_flight : (broadcast m s).in_flight ≡ s.in_flight
  unfolding broadcast
  broadcast-in_flight = ap (λ t. t.in_flight) (broadcast_to_frame s.subscribers m s)

  pub broadcast-power_by_uuid : (broadcast m s).power_by_uuid ≡ s.power_by_uuid
  unfolding broadcast
  broadcast-power_by_uuid = ap (λ t. t.power_by_uuid) (broadcast_to_frame s.subscribers m s)

  pub broadcast-telemetry_in_flight : (broadcast m s).telemetry_in_flight ≡ s.telemetry_in_flight
  unfolding broadcast
  broadcast-telemetry_in_flight =
      ap (λ t. t.telemetry_in_flight) (broadcast_to_frame s.subscribers m s)

  pub broadcast-resolving : (broadcast m s).resolving ≡ s.resolving
  unfolding broadcast
  broadcast-resolving = ap (λ t. t.resolving) (broadcast_to_frame s.subscribers m s)

  pub broadcast-last_sync_hosts_at : (broadcast m s).last_sync_hosts_at ≡ s.last_sync_hosts_at
  unfolding broadcast
  broadcast-last_sync_hosts_at =
      ap (λ t. t.last_sync_hosts_at) (broadcast_to_frame s.subscribers m s)

  pub broadcast-cycle_samples : (broadcast m s).cycle_samples ≡ s.cycle_samples
  unfolding broadcast
  broadcast-cycle_samples = ap (λ t. t.cycle_samples) (broadcast_to_frame s.subscribers m s)

  pub broadcast-next_subscriber_id : (broadcast m s).next_subscriber_id ≡ s.next_subscriber_id
  unfolding broadcast
  broadcast-next_subscriber_id =
      ap (λ t. t.next_subscriber_id) (broadcast_to_frame s.subscribers m s)

  pub broadcast-queue_depth : (broadcast m s).queue_depth ≡ s.queue_depth
  unfolding broadcast
  broadcast-queue_depth = ap (λ t. t.queue_depth) (broadcast_to_frame s.subscribers m s)

-- The fields that a broadcast keeps.
pub ruleset broadcast_keeps = (
  broadcast-state_by_uuid, broadcast-meta_by_uuid, broadcast-known_hosts, broadcast-in_flight,
  broadcast-power_by_uuid, broadcast-telemetry_in_flight, broadcast-resolving,
  broadcast-last_sync_hosts_at, broadcast-cycle_samples, broadcast-next_subscriber_id,
  broadcast-queue_depth,
)

-- Making an entry changes the entries and nothing else, and the entry is there afterwards.
pub ensure_meta_frame :
    (uuid : String) (now : ℕ) (s : Service)
    → (ensure_meta uuid now s).0
      ≡ record s { meta_by_uuid = (ensure_meta uuid now s).0.meta_by_uuid }
unfolding ensure_meta
ensure_meta_frame uuid now s = ground arith

pub lookup-ensure_meta :
    (uuid : String) (now : ℕ) (s : Service)
    → lookup uuid (ensure_meta uuid now s).0.meta_by_uuid ≡ some (ensure_meta uuid now s).1
unfolding ensure_meta
lookup-ensure_meta uuid now s =
    ground (arith, lookup-insert_self uuid (create_meta now) s.meta_by_uuid)

-- A device that has an entry keeps it.
pub ensure_meta_of_entry :
    (uuid : String) (now : ℕ) (s : Service) {meta : PollMeta}
    → lookup uuid s.meta_by_uuid ≡ some meta
    → ensure_meta uuid now s ≡ (s, meta)
unfolding ensure_meta
ensure_meta_of_entry uuid now s entry = ground (arith, entry)
