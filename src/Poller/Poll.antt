-- ===== src/Poller/Poll.antt =====
-- `pollDevice` of packages/core/src/api/state-poller.ts in its three steps: the part before the
-- first `await`, the part after the last, and the `finally` of the caller. Other calls run between
-- them.
pub mod Schedule
use merossity.Prelude.{ℕ, ◌+◌, String}
use merossity.Prelude.{Bool, true, false, not}
use merossity.Prelude.{Option, none, some, [], ◌∷◌, ◌++◌}
use merossity.Prelude.{leb, if◌then◌else◌}
use merossity.Prelude.{map_option}
use merossity.Prelude.Maps.{lookup, insert}
use merossity.Prelude.Results.{ok, err}
use merossity.Poller.Types.{PollReason, DeviceStateDto, PollErrorDto, PollMeta}
use merossity.Poller.Backoff.{next_interval_ms}
use merossity.Poller.Change.{has_material_state_change}
use merossity.Poller.Service.{
  Service, device_state, device_stale, has_key, remove_key, ensure_meta, set_meta, broadcast,
}
use merossity.Poller.Recovery.{start_resolve}
use merossity.Poller.Reading.{
  Answers, read_state, stale_state, next_updated_at, poll_code_from_error,
}

pub data PollResult : Type 0 where
  polled : DeviceStateDto → PollResult
  failed : PollErrorDto → PollResult

-- The start of a call: `none` where it waits for the poll of that uuid that is under way.
unfoldable pub start_poll : String → ℕ → Service → Option Service
start_poll uuid now s =
    if has_key uuid s.in_flight
    then none
    else let (s', _) = ensure_meta uuid now s in
      some (record s' { in_flight = s'.in_flight ++ uuid ∷ [] })

-- The entry after a success, whose time of change is set if the state changed.
unfoldable pub success_meta : Bool → (started random_value : ℕ) → PollMeta → PollMeta
success_meta changed started random_value meta =
    let meta1 = if changed then record meta { last_change_at = some started } else meta in
    let meta2 = record meta1 { failure_count = 0; last_success_at = some started } in
    record meta2 { next_due_at = started + next_interval_ms meta2 started random_value }

-- The entry after a failure.
unfoldable pub failure_meta : (started random_value : ℕ) → PollMeta → PollMeta
failure_meta started random_value meta =
    let meta1 = record meta { failure_count = meta.failure_count + 1 } in
    record meta1 { next_due_at = started + next_interval_ms meta1 started random_value }

-- Stores the state that was read, and sends it if it changed.
unfoldable pub publish_state :
    String → PollReason → DeviceStateDto → Service → Service × DeviceStateDto
publish_state uuid reason next s =
    let prev = lookup uuid s.state_by_uuid in
    let changed = has_material_state_change prev next in
    let kept : DeviceStateDto =
      if changed then next else elim prev [ none ↦ next | some p ↦ record p { source = reason } ] in
    let s1 = record s { state_by_uuid = insert uuid kept s.state_by_uuid } in
    (if changed then broadcast (device_state next) s1 else s1, kept)

-- After a successful read: `started` is the time of the call, `now` that of `nextUpdatedAt`.
unfoldable pub poll_succeeded :
    String
    → PollReason
    → (started now random_value : ℕ) → DeviceStateDto
    → Service
    → Service × PollResult
poll_succeeded uuid reason started now random_value reading s =
    let prev = lookup uuid s.state_by_uuid in
    let next = record reading {
      updated_at = next_updated_at (map_option (λ p. p.updated_at) prev) now;
    } in
    let (s0, meta0) = ensure_meta uuid started s in
    let changed = has_material_state_change prev next in
    let (s1, kept) = publish_state uuid reason next s0 in
    (set_meta uuid (success_meta changed started random_value meta0) s1, polled kept)

-- Stores and sends the state of a failure.
unfoldable pub publish_stale : String → DeviceStateDto → Service → Service
publish_stale uuid stale_next s =
    let prev = lookup uuid s.state_by_uuid in
    let became_stale : Bool = elim prev [ none ↦ true | some p ↦ not p.stale ] in
    let stored = record s { state_by_uuid = insert uuid stale_next s.state_by_uuid } in
    let s1 : Service =
      if has_material_state_change prev stale_next
      then broadcast (device_state stale_next) stored
      else elim prev [ none ↦ stored | some _ ↦ s ] in
    if became_stale then broadcast (device_stale stale_next) s1 else s1

module _ (to_lower_case : String → String) where
  -- After an error with `message`. The Boolean says whether a look-up of the host was started.
  unfoldable pub poll_failed :
      String
      → PollReason
      → (started now random_value : ℕ) → String
      → Service
      → Service × PollResult × Bool
  poll_failed uuid reason started now random_value message s =
      let (s0, meta0) = ensure_meta uuid started s in
      let meta = failure_meta started random_value meta0 in
      let s1 = set_meta uuid meta s0 in
      let stale_next =
        stale_state uuid reason message now (lookup uuid s1.state_by_uuid)
          (map_option (λ h. h.host) (lookup uuid s1.known_hosts)) in
      let s2 = publish_stale uuid stale_next s1 in
      let (s3, looking) =
        if leb 3 meta.failure_count then start_resolve uuid now s2 else (s2, false) in
      (
        s3,
        failed (record {
          uuid = uuid;
          code = poll_code_from_error (to_lower_case message);
          message = message;
          at = now;
        }),
        looking,
      )

  -- The part after the last `await`.
  unfoldable pub settle_poll :
      String
      → PollReason
      → (started now random_value : ℕ) → Answers
      → Service
      → Service × PollResult × Bool
  settle_poll uuid reason started now random_value answers s =
      elim (read_state uuid reason answers) [
        | ok reading ↦
            let (s', result) = poll_succeeded uuid reason started now random_value reading s in
            (s', result, false)
        | err message ↦ poll_failed uuid reason started now random_value message s
      ]

-- The `finally` of the call.
unfoldable pub release_poll : String → Service → Service
release_poll uuid s = record s { in_flight = remove_key uuid s.in_flight }
