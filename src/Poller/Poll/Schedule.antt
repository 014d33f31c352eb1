-- ===== src/Poller/Poll/Schedule.antt =====
-- When a device is polled again after a poll.
use merossity.Prelude.{ℕ, ◌+◌, ◌≤◌, String}
use merossity.Prelude.{◌≡◌, refl, ◌⊎◌, inl, inr, Bool, true, false}
use merossity.Prelude.{some, arith}
use merossity.Prelude.{leb, if◌then◌else◌}
use merossity.Prelude.Maps.{lookup, lookup-insert_self}
use merossity.Prelude.Results.{ok, err, Result-cases}
use merossity.Poller.Types.{DeviceStateDto, PollReason, PollMeta}
use merossity.Poller.Backoff.{failure_backoff_ms, next_interval_ms}
use merossity.Poller.Backoff.Bounds.{next_interval_ms_bounds}
use merossity.Poller.Service.{Service, set_meta}
use merossity.Poller.Service.Frames.{ensure_meta_of_entry, broadcast-meta_by_uuid}
use merossity.Poller.Recovery.{start_resolve}
use merossity.Poller.Reading.{Answers, read_state}
use merossity.Poller.Poll.{
  publish_state, publish_stale, poll_succeeded, poll_failed, settle_poll, success_meta,
  failure_meta,
}

-- The entry of a device that succeeded: no failures, and the next poll within 51.75 seconds.
abbrev pub Succeeded : ℕ → PollMeta → PollMeta → Type 0
Succeeded started before after =
    (after.failure_count ≡ 0)
    × (after.last_success_at ≡ some started)
    × (started + 7200 ≤ after.next_due_at)
    × (after.next_due_at ≤ started + 51750)
    × (after.boost_until_at ≡ before.boost_until_at)

-- The entry of a device that failed: one more failure, and the next poll by the back-off.
abbrev pub Failed : ℕ → PollMeta → PollMeta → Type 0
Failed started before after =
    (after.failure_count ≡ before.failure_count + 1)
    × (after.last_success_at ≡ before.last_success_at)
    × (after.next_due_at ≡ started + failure_backoff_ms (before.failure_count + 1))
    × (after.boost_until_at ≡ before.boost_until_at)

pub publish_state-meta_by_uuid :
    (uuid : String) (reason : PollReason) (next : DeviceStateDto) (s : Service)
    → (publish_state uuid reason next s).0.meta_by_uuid ≡ s.meta_by_uuid
unfolding publish_state
publish_state-meta_by_uuid uuid reason next s = grind (arith, broadcast-meta_by_uuid)

pub publish_stale-meta_by_uuid :
    (uuid : String) (next : DeviceStateDto) (s : Service)
    → (publish_stale uuid next s).meta_by_uuid ≡ s.meta_by_uuid
unfolding publish_stale
publish_stale-meta_by_uuid uuid next s = grind (arith, broadcast-meta_by_uuid)

-- Starting a look-up of the host at most notes the attempt.
start_resolve-meta :
    (uuid : String) (now : ℕ) (s : Service) {meta : PollMeta}
    → lookup uuid s.meta_by_uuid ≡ some meta
    → (lookup uuid (start_resolve uuid now s).0.meta_by_uuid ≡ some meta)
      ⊎ (lookup uuid (start_resolve uuid now s).0.meta_by_uuid
          ≡ some (record meta { last_resolve_attempt_at = some now }))
unfolding start_resolve
start_resolve-meta uuid now s {meta} entry = ground (
  arith,
  ensure_meta_of_entry uuid now s entry,
  lookup-insert_self uuid (record meta { last_resolve_attempt_at = some now }) s.meta_by_uuid,
)

success_meta-Succeeded :
    (changed : Bool) (started r : ℕ) (meta : PollMeta)
    → Succeeded started meta (success_meta changed started r meta)
unfolding success_meta
success_meta-Succeeded true started r meta =
    let later = record meta {
      last_change_at = some started;
      failure_count = 0;
      last_success_at = some started;
    } in
    (
      refl,
      refl,
      grind (arith, next_interval_ms_bounds later started r),
      grind (arith, next_interval_ms_bounds later started r),
      refl,
    )
success_meta-Succeeded false started r meta =
    let later = record meta { failure_count = 0; last_success_at = some started } in
    (
      refl,
      refl,
      grind (arith, next_interval_ms_bounds later started r),
      grind (arith, next_interval_ms_bounds later started r),
      refl,
    )

failure_meta-Failed :
    (started r : ℕ) (meta : PollMeta) → Failed started meta (failure_meta started r meta)
unfolding failure_meta next_interval_ms
failure_meta-Failed started r meta = ground arith

after_resolve :
    (look : Bool) (uuid : String) (started now : ℕ) (before : PollMeta) (s : Service)
    {meta : PollMeta}
    → lookup uuid s.meta_by_uuid ≡ some meta
    → Failed started before meta
    → (after : PollMeta) × (lookup uuid
          (if look then start_resolve uuid now s else (s, false)).0.meta_by_uuid
        ≡ some after)
      × Failed started before after
after_resolve false uuid started now before s {meta} entry h = (meta, entry, h)
after_resolve true uuid started now before s {meta} entry h =
    elim (start_resolve-meta uuid now s entry) [
      | inl same ↦ (meta, same, h)
      | inr noted ↦ (record meta { last_resolve_attempt_at = some now }, noted, h)
    ]

after_publish :
    (look : Bool) (uuid : String) (started now : ℕ) (before : PollMeta) (next : DeviceStateDto)
    (s : Service) {meta : PollMeta}
    → lookup uuid s.meta_by_uuid ≡ some meta
    → Failed started before meta
    → let t = publish_stale uuid next s in
      (after : PollMeta) × (lookup uuid
          (if look then start_resolve uuid now t else (t, false)).0.meta_by_uuid
        ≡ some after)
      × Failed started before after
after_publish look uuid started now before next s {meta} entry h =
    after_resolve look uuid started now before (publish_stale uuid next s) {meta = meta}
      (rw (publish_stale-meta_by_uuid uuid next s) entry) h

module _ (uuid : String) (reason : PollReason) (started now r : ℕ) (s : Service) {meta : PollMeta}
    (entry : lookup uuid s.meta_by_uuid ≡ some meta) where
  poll_succeeded-meta :
      (reading : DeviceStateDto)
      → (after : PollMeta) × (lookup uuid
            (poll_succeeded uuid reason started now r reading s).0.meta_by_uuid
          ≡ some after)
        × Succeeded started meta after
  unfolding poll_succeeded
  poll_succeeded-meta reading =
      rw (ensure_meta_of_entry uuid started s entry)
        (_, lookup-insert_self uuid _ _, success_meta-Succeeded _ started r meta)

  poll_failed-meta :
      (lower : String → String) (message : String)
      → (after : PollMeta) × (lookup uuid
            (poll_failed lower uuid reason started now r message s).0.meta_by_uuid
          ≡ some after)
        × Failed started meta after
  unfolding poll_failed
  poll_failed-meta lower message = rw (ensure_meta_of_entry uuid started s entry) (
      after_publish (leb 3 (failure_meta started r meta).failure_count) uuid started now meta _
        (set_meta uuid (failure_meta started r meta) s)
        (lookup-insert_self uuid (failure_meta started r meta) s.meta_by_uuid)
        (failure_meta-Failed started r meta))

  -- A poll of a device that has an entry leaves it with no failure and due again within 51.75
  -- seconds if the device was read, and with one failure more and due after that many failures'
  -- back-off if it was not, counted from the start of the poll. A boost stays as it was.
  pub settle_poll-meta :
      (lower : String → String) (answers : Answers)
      → (after : PollMeta) × (lookup uuid
            (settle_poll lower uuid reason started now r answers s).0.meta_by_uuid
          ≡ some after)
        × ((((reading : DeviceStateDto) × (read_state uuid reason answers ≡ ok reading))
              × Succeeded started meta after)
            ⊎ (((message : String) × (read_state uuid reason answers ≡ err message))
                × Failed started meta after))
  unfolding settle_poll
  settle_poll-meta lower answers = elim (Result-cases (read_state uuid reason answers)) [
    | inl (reading, e) ↦
        let (after, found, h) = poll_succeeded-meta reading in
        (after, rw (e, settle_poll) found, inl ((reading, e), h))
    | inr (message, e) ↦
        let (after, found, h) = poll_failed-meta lower message in
        (after, rw (e, settle_poll) found, inr ((message, e), h))
  ]
