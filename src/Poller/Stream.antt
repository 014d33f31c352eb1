-- ===== src/Poller/Stream.antt =====
-- The stream of packages/core/src/api/state-poller.ts, as a reader sees it: a table of states that
-- is filled by the messages in their order.
pub mod Synced
pub mod Settle
use merossity.Prelude.{ℕ, ◌+◌, ◌-◌}
use merossity.Prelude.{◌≡◌, refl, ap, ◌∙◌, ◌≢◌, inl, inr, true, false, not}
use merossity.Prelude.{List, [], ◌∷◌, ◌++◌, arith}
use merossity.Prelude.{◌==◌, if◌then◌else◌, ==_iff}
use merossity.Prelude.{Bool-cases}
use merossity.Prelude.{keep}
use merossity.Prelude.Maps.{Map, insert}
use merossity.Poller.Types.{DeviceStateDto}
use merossity.Poller.Service.{
  Service, Message, snapshot, device_state, device_stale, has_id, push_to_subscriber, broadcast_to,
}

-- What one subscriber was sent, in order.
pub received : ℕ → List (ℕ × Message) → List Message
received id [] = []
received id ((i, m) ∷ sent) = let rest = received id sent in if i == id then m ∷ rest else rest

insert_all : List DeviceStateDto → Map DeviceStateDto → Map DeviceStateDto
insert_all [] table = table
insert_all (d ∷ ds) table = insert_all ds (insert d.uuid d table)

apply_message : Map DeviceStateDto → Message → Map DeviceStateDto
apply_message table (snapshot states) = insert_all states table
apply_message table (device_state d) = insert d.uuid d table
apply_message table (device_stale d) = insert d.uuid d table
apply_message table _ = table

replay : Map DeviceStateDto → List Message → Map DeviceStateDto
replay table [] = table
replay table (m ∷ ms) = replay (apply_message table m) ms

-- The table of a reader that has taken all that it was sent.
unfoldable pub view : ℕ → Service → Map DeviceStateDto
unfolding received replay apply_message insert_all
view id s = replay [] (received id s.sent)

received-append :
    (id : ℕ) (xs ys : List (ℕ × Message))
    → received id (xs ++ ys) ≡ received id xs ++ received id ys
unfolding received
received-append id [] ys = refl
received-append id ((i, m) ∷ xs) ys = ground (arith, received-append id xs ys)

replay-append :
    (table : Map DeviceStateDto) (xs ys : List Message)
    → replay table (xs ++ ys) ≡ replay (replay table xs) ys
unfolding replay
replay-append table [] ys = refl
replay-append table (m ∷ xs) ys = replay-append (apply_message table m) xs ys

-- A subscriber whose stream is open.
abbrev pub IsOpen : ℕ → Service → Type 0
IsOpen id s = (has_id id s.subscribers ≡ true) × (has_id id s.closed ≡ false)

abbrev pub IsDistinctIds : List ℕ → Type 0
IsDistinctIds [] = Unit
IsDistinctIds (i ∷ ids) = (has_id i ids ≡ false) × IsDistinctIds ids

has_id-keep :
    (id j : ℕ) (ids : List ℕ) → id ≢ j → has_id id (keep (λ i. not (i == j)) ids) ≡ has_id id ids
has_id-keep id j [] h = refl
has_id-keep id j (i ∷ ids) h = ground (arith, has_id-keep id j ids h)

received_other :
    (id j : ℕ) (m : Message) (sent : List (ℕ × Message))
    → id ≢ j
    → received id (sent ++ (j, m) ∷ []) ≡ received id sent
unfolding received
received_other id j m [] h = ground arith
received_other id j m ((i, x) ∷ sent) h = ground (arith, received_other id j m sent h)

received_self :
    (id : ℕ) (m : Message) (sent : List (ℕ × Message))
    → received id (sent ++ (id, m) ∷ []) ≡ received id sent ++ m ∷ []
unfolding received
received_self id m [] = ground arith
received_self id m ((i, x) ∷ sent) = ground (arith, received_self id m sent)

push_other :
    (id j : ℕ) (m : Message) (s : Service)
    → id ≢ j
    → IsOpen id s
    → IsOpen id (push_to_subscriber j m s)
      × (received id (push_to_subscriber j m s).sent ≡ received id s.sent)
unfolding push_to_subscriber
push_other id j m s h o =
    ground (arith, has_id-keep id j s.subscribers h, received_other id j m s.sent h)

push_self :
    (id : ℕ) (m : Message) (s : Service)
    → IsOpen id s
    → IsOpen id (push_to_subscriber id m s)
      × (received id (push_to_subscriber id m s).sent ≡ received id s.sent ++ m ∷ [])
unfolding push_to_subscriber
push_self id m s o = ground (arith, received_self id m s.sent)

broadcast_to_others :
    (id : ℕ) (ids : List ℕ) (m : Message) (s : Service)
    → has_id id ids ≡ false
    → IsOpen id s
    → IsOpen id (broadcast_to ids m s)
      × (received id (broadcast_to ids m s).sent ≡ received id s.sent)
unfolding broadcast_to
broadcast_to_others id [] m s h o = (o, refl)
broadcast_to_others id (j ∷ ids) m s h o =
    let (o', same) = push_other id j m s (ground arith) o in
    let (o2, same') = broadcast_to_others id ids m (push_to_subscriber j m s) (ground arith) o' in
    (o2, same' ∙ same)

broadcast_to_all :
    (id : ℕ) (ids : List ℕ) (m : Message) (s : Service)
    → has_id id ids ≡ true
    → IsDistinctIds ids
    → IsOpen id s
    → IsOpen id (broadcast_to ids m s)
      × (received id (broadcast_to ids m s).sent ≡ received id s.sent ++ m ∷ [])
unfolding broadcast_to
broadcast_to_all id [] m s h d o = cc
broadcast_to_all id (j ∷ ids) m s h d o = elim (Bool-cases (j == id)) [
  | inl e ↦
      let same : j ≡ id = (==_iff j id).0 e in
      let (o', got) = push_self id m s o in
      let (o2, kept) =
        broadcast_to_others id ids m (push_to_subscriber id m s) (rw same at d.0) o' in
      rw same (o2, kept ∙ got)
  | inr e ↦
      let (o', same) = push_other id j m s (ground arith) o in
      let (o2, got) = broadcast_to_all id ids m (push_to_subscriber j m s) (ground arith) d.1 o' in
      (o2, got ∙ ap (λ l. l ++ m ∷ []) same)
]
