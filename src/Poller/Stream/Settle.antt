-- ===== src/Poller/Stream/Settle.antt =====
-- A whole poll keeps the readers of the stream right.
use merossity.Prelude.{ℕ, String}
use merossity.Prelude.{◌≡◌, refl, sym, inl, inr, Bool, true, false}
use merossity.Prelude.{Option, none, some, List, arith}
use merossity.Prelude.{leb, if◌then◌else◌}
use merossity.Prelude.{map_option}
use mathlib.Core.Path.{subst}
use merossity.Prelude.Maps.{Map, lookup}
use merossity.Prelude.Results.{ok, Result-cases}
use merossity.Poller.Types.{DeviceStateDto, PollReason, PollMeta}
use merossity.Poller.Service.{Service, ensure_meta, set_meta}
use merossity.Poller.Service.Frames.{ensure_meta_frame}
use merossity.Poller.Recovery.{start_resolve}
use merossity.Poller.Reading.{Answers, read_state, stale_state, next_updated_at}
use merossity.Poller.Poll.{poll_succeeded, poll_failed, settle_poll, publish_stale, failure_meta}
use merossity.Poller.Stream.{view}
use merossity.Poller.Stream.Synced.{Reads, Synced, publish_state-Synced, publish_stale-Synced}

-- Both together, for changes of the entries and of the look-ups under way.
abbrev pub IsRight : ℕ → Service → Type 0
IsRight id s = Reads id s × Synced id s

IsRight-entries :
    (id : ℕ) (metas : Map PollMeta) (looked_up : List String) (s : Service)
    → IsRight id s
    → IsRight id (record s { meta_by_uuid = metas; resolving = looked_up })
unfolding view
IsRight-entries id metas looked_up s (h, synced) =
    (record { open_stream = h.open_stream; distinct = h.distinct }, synced)

ensure_meta-IsRight :
    (id : ℕ) (uuid : String) (now : ℕ) (s : Service)
    → IsRight id s
    → IsRight id (ensure_meta uuid now s).0
ensure_meta-IsRight id uuid now s h =
    subst (IsRight id) (sym (ensure_meta_frame uuid now s))
      (IsRight-entries id (ensure_meta uuid now s).0.meta_by_uuid s.resolving s h)

start_resolve_frame :
    (uuid : String) (now : ℕ) (s : Service)
    → (start_resolve uuid now s).0 ≡ record s {
      meta_by_uuid = (start_resolve uuid now s).0.meta_by_uuid;
      resolving = (start_resolve uuid now s).0.resolving;
    }
unfolding start_resolve ensure_meta
start_resolve_frame uuid now s = ground arith

look_up-IsRight :
    (look : Bool) (id : ℕ) (uuid : String) (now : ℕ) (s : Service)
    → IsRight id s
    → IsRight id (if look then start_resolve uuid now s else (s, false)).0
look_up-IsRight false id uuid now s h = h
look_up-IsRight true id uuid now s h =
    subst (IsRight id) (sym (start_resolve_frame uuid now s)) (IsRight-entries id _ _ s h)

read_state-uuid :
    (uuid : String) (reason : PollReason) (answers : Answers) {reading : DeviceStateDto}
    → read_state uuid reason answers ≡ ok reading
    → reading.uuid ≡ uuid
unfolding read_state
read_state-uuid uuid reason answers e = ground arith

poll_succeeded-IsRight :
    (id : ℕ) (reason : PollReason) (started now r : ℕ) (reading : DeviceStateDto) (s : Service)
    → IsRight id s
    → IsRight id (poll_succeeded reading.uuid reason started now r reading s).0
unfolding poll_succeeded
poll_succeeded-IsRight id reason started now r reading s h =
    let s0 = (ensure_meta reading.uuid started s).0 in
    let (h0, synced0) = ensure_meta-IsRight id reading.uuid started s h in
    IsRight-entries id _ _ _ (
      publish_state-Synced id reason
        (record reading {
          updated_at =
              next_updated_at (map_option (λ p. p.updated_at) (lookup reading.uuid s.state_by_uuid))
                now;
        })
        s0 h0 synced0)

stale_state_marks :
    (uuid : String) (reason : PollReason) (message : String) (now : ℕ)
    (prev : Option DeviceStateDto) (known : Option String)
    → ((stale_state uuid reason message now prev known).uuid ≡ uuid)
      × ((stale_state uuid reason message now prev known).stale ≡ true)
unfolding stale_state
stale_state_marks uuid reason message now none known = (refl, refl)
stale_state_marks uuid reason message now (some prev) known = (refl, refl)

publish_stale-IsRight :
    (id : ℕ) (uuid : String) (next : DeviceStateDto) (s : Service)
    → (next.uuid ≡ uuid) × (next.stale ≡ true)
    → IsRight id s
    → IsRight id (publish_stale uuid next s)
publish_stale-IsRight id uuid next s (own, stale) (h, synced) =
    subst (λ u. IsRight id (publish_stale u next s)) own
      (publish_stale-Synced id next s stale h synced)

poll_failed-IsRight :
    (lower : String → String) (id : ℕ) (uuid : String) (reason : PollReason) (started now r : ℕ)
    (message : String) (s : Service)
    → IsRight id s
    → IsRight id (poll_failed lower uuid reason started now r message s).0
unfolding poll_failed
poll_failed-IsRight lower id uuid reason started now r message s h =
    let (s0, meta0) = ensure_meta uuid started s in
    let meta = failure_meta started r meta0 in
    let s1 = set_meta uuid meta s0 in
    look_up-IsRight (leb 3 meta.failure_count) id uuid now _ (
      publish_stale-IsRight id uuid _ s1
        (stale_state_marks uuid reason message now (lookup uuid s1.state_by_uuid)
          (map_option (λ k. k.host) (lookup uuid s1.known_hosts)))
        (IsRight-entries id s1.meta_by_uuid s1.resolving s0
          (ensure_meta-IsRight id uuid started s h)))

-- A reader whose stream is open, among subscribers with different ids, has after any poll of any
-- device a table that agrees with the service's in every state's material part, if it had before:
-- what a poll changes is sent, and what is not sent is not material.
pub settle_poll-Synced :
    (lower : String → String) (id : ℕ) (uuid : String) (reason : PollReason) (started now r : ℕ)
    (answers : Answers) (s : Service)
    → Reads id s
    → Synced id s
    → Reads id (settle_poll lower uuid reason started now r answers s).0
      × Synced id (settle_poll lower uuid reason started now r answers s).0
unfolding settle_poll
settle_poll-Synced lower id uuid reason started now r answers s h synced =
    elim (Result-cases (read_state uuid reason answers)) [
      | inl (reading, e) ↦
          rw (e, settle_poll)
            (subst (λ u. IsRight id (poll_succeeded u reason started now r reading s).0)
              (read_state-uuid uuid reason answers e)
              (poll_succeeded-IsRight id reason started now r reading s (h, synced)))
      | inr (message, e) ↦
          rw (e, settle_poll)
            (poll_failed-IsRight lower id uuid reason started now r message s (h, synced))
    ]
