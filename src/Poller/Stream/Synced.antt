-- ===== src/Poller/Stream/Synced.antt =====
-- The table that a reader of the stream builds agrees with the service's.
use merossity.Prelude.{ℕ, String}
use merossity.Prelude.{◌≡◌, refl, sym, ap, ◌∙◌, inl, inr, true, false, not}
use merossity.Prelude.{some, List, [], ◌∷◌, arith, eq_iff}
use merossity.Prelude.{◌==◌, str_eq, if◌then◌else◌}
use merossity.Prelude.{Bool-cases, Option-cases, map_option}
use merossity.Prelude.{keep}
use merossity.Prelude.Maps.{Map, lookup, insert, lookup-insert, lookup-insert_self}
use merossity.Poller.Types.{DeviceStateDto, PollReason}
use merossity.Poller.Change.{has_material_state_change}
use merossity.Poller.Change.Material.{material, has_material_state_change_iff}
use merossity.Poller.Service.{
  Service, Message, device_state, device_stale, has_id, push_to_subscriber, broadcast_to, broadcast,
}
use merossity.Poller.Service.Frames.{broadcast-state_by_uuid}
use merossity.Poller.Poll.{publish_state, publish_stale}
use merossity.Poller.Stream.{
  received, apply_message, view, replay-append, IsOpen, IsDistinctIds, broadcast_to_all,
}

has_id-keep-false :
    (id j : ℕ) (ids : List ℕ)
    → has_id id ids ≡ false
    → has_id id (keep (λ i. not (i == j)) ids) ≡ false
has_id-keep-false id j [] h = refl
has_id-keep-false id j (i ∷ ids) h = ground (arith, has_id-keep-false id j ids)

IsDistinctIds-keep :
    (j : ℕ) (ids : List ℕ) → IsDistinctIds ids → IsDistinctIds (keep (λ i. not (i == j)) ids)
IsDistinctIds-keep j [] d = tt
IsDistinctIds-keep j (i ∷ ids) d =
    ground (arith, has_id-keep-false i j ids, IsDistinctIds-keep j ids)

broadcast_to-IsDistinctIds :
    (ids : List ℕ) (m : Message) (s : Service)
    → IsDistinctIds s.subscribers
    → IsDistinctIds (broadcast_to ids m s).subscribers
unfolding broadcast_to push_to_subscriber
broadcast_to-IsDistinctIds [] m s d = d
broadcast_to-IsDistinctIds (id ∷ ids) m s d =
    broadcast_to-IsDistinctIds ids m (push_to_subscriber id m s)
      (ground (arith, IsDistinctIds-keep id s.subscribers d))

-- A reader whose stream is open, among subscribers with different ids.
pub record Reads (id : ℕ) (s : Service) : Type 0 where
  pub open_stream : IsOpen id s
  pub distinct : IsDistinctIds s.subscribers

broadcast-Reads :
    (id : ℕ) (m : Message) (s : Service)
    → Reads id s
    → Reads id (broadcast m s) × (view id (broadcast m s) ≡ apply_message (view id s) m)
unfolding broadcast view
broadcast-Reads id m s h =
    let (o, got) = broadcast_to_all id s.subscribers m s h.open_stream.0 h.distinct h.open_stream in
    (
      record {
        open_stream = o;
        distinct = broadcast_to-IsDistinctIds s.subscribers m s h.distinct;
      },
      rw got (replay-append [] (received id s.sent) (m ∷ [])),
    )

-- The reader's table and the service's have the same uuids, with the same material parts.
abbrev pub Synced : ℕ → Service → Type 0
Synced id s =
    (u : String)
    → map_option material (lookup u (view id s)) ≡ map_option material (lookup u s.state_by_uuid)

-- A message that tells the state stored under its uuid.
broadcast-Synced :
    (id : ℕ) (m : Message) (next : DeviceStateDto) (s : Service)
    → ((table : Map DeviceStateDto) → apply_message table m ≡ insert next.uuid next table)
    → Reads id s
    → ((u : String)
        → map_option material (if str_eq next.uuid u then some next else lookup u (view id s))
          ≡ map_option material (lookup u s.state_by_uuid))
    → Reads id (broadcast m s) × Synced id (broadcast m s)
broadcast-Synced id m next s applies h agree =
    let (h', told) = broadcast-Reads id m s h in
    (
      h',
      λ u.
          rw
            (told, applies, lookup-insert next.uuid u next (view id s), broadcast-state_by_uuid m s)
            (agree u),
    )

-- The next state stored under its uuid agrees with the message that tells it.
stored_agrees :
    (id : ℕ) (next : DeviceStateDto) (s : Service)
    → Synced id s
    → (u : String)
    → map_option material (if str_eq next.uuid u then some next else lookup u (view id s))
      ≡ map_option material (lookup u (insert next.uuid next s.state_by_uuid))
stored_agrees id next s synced u =
    rw (lookup-insert next.uuid u next s.state_by_uuid)
      (elim (Bool-cases (str_eq next.uuid u)) [ inl e ↦ rw e | inr e ↦ rw e (synced u) ])

abbrev store : DeviceStateDto → Service → Service
store next s = record s { state_by_uuid = insert next.uuid next s.state_by_uuid }

tell_state :
    (id : ℕ) (next : DeviceStateDto) (s : Service)
    → Reads id s
    → Synced id s
    → Reads id (broadcast (device_state next) (store next s))
      × Synced id (broadcast (device_state next) (store next s))
unfolding apply_message view
tell_state id next s h synced =
    broadcast-Synced id (device_state next) next (store next s) (λ t. refl)
      (record { open_stream = h.open_stream; distinct = h.distinct })
      (stored_agrees id next s synced)

-- Saying a stored state once more, as stale, changes nothing for the reader.
tell_stale :
    (id : ℕ) (next : DeviceStateDto) (s : Service)
    → lookup next.uuid s.state_by_uuid ≡ some next
    → Reads id s
    → Synced id s
    → Reads id (broadcast (device_stale next) s) × Synced id (broadcast (device_stale next) s)
unfolding apply_message
tell_stale id next s stored h synced =
    broadcast-Synced id (device_stale next) next s (λ t. refl) h
      (λ u. elim (Bool-cases (str_eq next.uuid u)) [
        | inl e ↦ rw e (ap (map_option material) (sym (rw ((eq_iff next.uuid u).0 e) at stored)))
        | inr e ↦ rw e (synced u)
      ])

-- A state stored in place of one with the same material part leaves the reader right.
replace_state :
    (id : ℕ) (prev kept : DeviceStateDto) (uuid : String) (s : Service)
    → lookup uuid s.state_by_uuid ≡ some prev
    → material prev ≡ material kept
    → Synced id s
    → Synced id (record s { state_by_uuid = insert uuid kept s.state_by_uuid })
unfolding view
replace_state id prev kept uuid s stored same synced u =
    rw (lookup-insert uuid u kept s.state_by_uuid) (elim (Bool-cases (str_eq uuid u)) [
      | inl e ↦
          rw e (
            synced u ∙ ap (map_option material) (rw ((eq_iff uuid u).0 e) at stored) ∙ ap some same)
      | inr e ↦ rw e (synced u)
    ])

keeps_material :
    (prev next : DeviceStateDto)
    → has_material_state_change (some prev) next ≡ false
    → material prev ≡ material next
keeps_material prev next e = (has_material_state_change_iff prev next).1.0 e

-- A poll's success keeps every reader right.
pub publish_state-Synced :
    (id : ℕ) (reason : PollReason) (next : DeviceStateDto) (s : Service)
    → Reads id s
    → Synced id s
    → Reads id (publish_state next.uuid reason next s).0
      × Synced id (publish_state next.uuid reason next s).0
unfolding publish_state
publish_state-Synced id reason next s h synced =
    elim (Option-cases (lookup next.uuid s.state_by_uuid)) [
      | inl e ↦ rw (e, (has_material_state_change_iff next next).0) (tell_state id next s h synced)
      | inr (prev, e) ↦ elim (Bool-cases (has_material_state_change (some prev) next)) [
        | inl c ↦ rw (e, c) (tell_state id next s h synced)
        | inr c ↦
            rw (e, c)
              (
                record { open_stream = h.open_stream; distinct = h.distinct },
                replace_state id prev (record prev { source = reason }) next.uuid s e refl synced,
              )
      ]
    ]

tell_both :
    (id : ℕ) (next : DeviceStateDto) (s : Service)
    → Reads id s
    → Synced id s
    → let t = broadcast (device_stale next) (broadcast (device_state next) (store next s)) in
      Reads id t × Synced id t
tell_both id next s h synced =
    let (h', synced') = tell_state id next s h synced in
    tell_stale id next (broadcast (device_state next) (store next s))
      (rw (broadcast-state_by_uuid (device_state next) (store next s))
        (lookup-insert_self next.uuid next s.state_by_uuid))
      h' synced'

-- So does its failure, for a state that is marked as stale.
pub publish_stale-Synced :
    (id : ℕ) (next : DeviceStateDto) (s : Service)
    → next.stale ≡ true
    → Reads id s
    → Synced id s
    → Reads id (publish_stale next.uuid next s) × Synced id (publish_stale next.uuid next s)
unfolding publish_stale
publish_stale-Synced id next s stale h synced =
    elim (Option-cases (lookup next.uuid s.state_by_uuid)) [
      | inl e ↦ rw (e, (has_material_state_change_iff next next).0) (tell_both id next s h synced)
      | inr (prev, e) ↦ elim (Bool-cases (has_material_state_change (some prev) next)) [
        | inl c ↦ elim (Bool-cases prev.stale) [
          | inl q ↦ rw (e, c) (rw q (tell_state id next s h synced))
          | inr q ↦ rw (e, c) (rw q (tell_both id next s h synced))
        ]
        | inr c ↦
            let was : prev.stale ≡ true = ap (λ m. m.stale) (keeps_material prev next c) ∙ stale in
            rw (e, c) (rw was (h, synced))
      ]
    ]
