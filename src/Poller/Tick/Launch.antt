-- ===== src/Poller/Tick/Launch.antt =====
-- Which polls a tick starts.
use merossity.Prelude.{ℕ, ◌+◌, ◌≤◌, max, String}
use merossity.Prelude.{◌≡◌, refl, ap, ◌≢◌, ◌⊎◌, inl, inr, Bool, false, not}
use merossity.Prelude.{◌&&◌, some, List, [], ◌∷◌, ◌++◌, arith, eq_iff}
use merossity.Prelude.{ltb, leb, str_eq}
use merossity.Prelude.{Bool-cases, Option-cases, get_or, length}
use merossity.Prelude.{drop, keep, All, All-keep}
use mathlib.Core.List.{Perm}
use merossity.Prelude.{length-append}
use merossity.Prelude.Sorting.{sort-All, sort-perm, sort-IsSorted, IsSorted}
use merossity.Poller.Types.{PollMeta}
use merossity.Poller.Keys.{IsDistinct, IsDistinct-append}
use merossity.Poller.Service.{Service, has_key, ensure_meta}
use merossity.Poller.Service.Frames.{ensure_meta_frame}
use merossity.Poller.Poll.{start_poll}
use merossity.Poller.Tick.{poll_max_concurrency, is_due, due_devices, launch_polls}

-- The uuids of a list of entries.
abbrev pub uuids : List (String × PollMeta) → List String
uuids [] = []
uuids (e ∷ es) = e.0 ∷ uuids es

ensure_meta-in_flight :
    (uuid : String) (now : ℕ) (s : Service) → (ensure_meta uuid now s).0.in_flight ≡ s.in_flight
ensure_meta-in_flight uuid now s = ap (λ t. t.in_flight) (ensure_meta_frame uuid now s)

-- A poll that starts was not under way, and is the one more that is.
pub start_poll-in_flight :
    (uuid : String) (now : ℕ) (s : Service) {s' : Service}
    → start_poll uuid now s ≡ some s'
    → (has_key uuid s.in_flight ≡ false) × (s'.in_flight ≡ s.in_flight ++ uuid ∷ [])
unfolding start_poll
start_poll-in_flight uuid now s e = ground (arith, ensure_meta-in_flight uuid now s)

start_or_keep-length :
    (uuid : String) (now : ℕ) (s : Service)
    → length (get_or (start_poll uuid now s) s).in_flight ≤ length s.in_flight + 1
start_or_keep-length uuid now s = elim (Option-cases (start_poll uuid now s)) [
  | inl e ↦ rw e (omega arith)
  | inr (s', e) ↦
      let (_, grown) = start_poll-in_flight uuid now s e in
      rw e (rw grown (omega (arith, length-append {0} s.in_flight (uuid ∷ []))))
]

start_or_keep-IsDistinct :
    (uuid : String) (now : ℕ) (s : Service)
    → IsDistinct s.in_flight
    → IsDistinct (get_or (start_poll uuid now s) s).in_flight
start_or_keep-IsDistinct uuid now s d = elim (Option-cases (start_poll uuid now s)) [
  | inl e ↦ rw e d
  | inr (s', e) ↦
      let (fresh, grown) = start_poll-in_flight uuid now s e in
      rw e (rw grown (IsDistinct-append uuid s.in_flight fresh d))
]

launch_polls-length :
    (now : ℕ) (due : List (String × PollMeta)) (s : Service)
    → length (launch_polls now due s).0.in_flight ≤ max poll_max_concurrency (length s.in_flight)
unfolding launch_polls
launch_polls-length now [] s = omega arith
launch_polls-length now ((uuid, m) ∷ due) s = ground (
  arith,
  start_or_keep-length uuid now s,
  launch_polls-length now due (get_or (start_poll uuid now s) s),
)

launch_polls-IsDistinct :
    (now : ℕ) (due : List (String × PollMeta)) (s : Service)
    → IsDistinct s.in_flight
    → IsDistinct (launch_polls now due s).0.in_flight
unfolding launch_polls
launch_polls-IsDistinct now [] s d = d
launch_polls-IsDistinct now ((uuid, m) ∷ due) s d =
    elim (Bool-cases (ltb (length s.in_flight) poll_max_concurrency && not (str_eq uuid ""))) [
      | inl e ↦ rw e (
          launch_polls-IsDistinct now due (get_or (start_poll uuid now s) s)
            (start_or_keep-IsDistinct uuid now s d))
      | inr e ↦ rw e d
    ]

-- The devices of a list that the loop leaves waiting.
abbrev pub waiting : ℕ → List (String × PollMeta) → Service → List (String × PollMeta)
waiting now due s = drop (length (launch_polls now due s).1) due

launch_polls-prefix :
    (now : ℕ) (due : List (String × PollMeta)) (s : Service)
    → (launch_polls now due s).1 ++ uuids (waiting now due s) ≡ uuids due
unfolding launch_polls
launch_polls-prefix now [] s = refl
launch_polls-prefix now ((uuid, m) ∷ due) s =
    ground (arith, launch_polls-prefix now due (get_or (start_poll uuid now s) s))

-- The loop ends because six polls are under way, or because every device was started.
launch_polls-full :
    (now : ℕ) (due : List (String × PollMeta)) (s : Service)
    → All (λ e. e.0 ≢ "") due
    → (poll_max_concurrency ≤ length (launch_polls now due s).0.in_flight)
      ⊎ (waiting now due s ≡ [])
unfolding launch_polls
launch_polls-full now [] s h = inr refl
launch_polls-full now ((uuid, m) ∷ due) s h =
    ground (arith, eq_iff uuid "", launch_polls-full now due (get_or (start_poll uuid now s) s) h.1)

abbrev pub due_before : String × PollMeta → String × PollMeta → Bool
due_before a b = leb a.1.next_due_at b.1.next_due_at

due_devices-IsSorted : (s : Service) (now : ℕ) → IsSorted due_before (due_devices s now)
unfolding due_devices
due_devices-IsSorted s now =
    sort-IsSorted due_before (λ x y. ground arith) (λ x y z p q. ground arith) _

-- The list that a tick polls from has exactly the known devices that are due and not being
-- polled, the earliest first. If no key is empty and no poll is under way twice, the tick goes
-- through it from its head and stops only when six polls are under way or no device is left; it
-- starts none with six under way, and no device is then polled twice at once.
pub launch_polls_fair :
    (s : Service) (now : ℕ)
    → All (λ e. e.0 ≢ "") s.meta_by_uuid
    → IsDistinct s.in_flight
    → let due = due_devices s now in
      let after = launch_polls now due s in
      Perm due (keep (is_due s now) s.meta_by_uuid)
      × IsSorted due_before due
      × (after.1 ++ uuids (waiting now due s) ≡ uuids due)
      × ((poll_max_concurrency ≤ length after.0.in_flight) ⊎ (waiting now due s ≡ []))
      × (length after.0.in_flight ≤ max poll_max_concurrency (length s.in_flight))
      × IsDistinct after.0.in_flight
unfolding due_devices
launch_polls_fair s now named distinct =
    let due = due_devices s now in
    (
      sort-perm due_before _,
      due_devices-IsSorted s now,
      launch_polls-prefix now due s,
      launch_polls-full now due s (
          sort-All due_before (λ e. e.0 ≢ "") _
            (All-keep (λ e. e.0 ≢ "") (is_due s now) s.meta_by_uuid named)),
      launch_polls-length now due s,
      launch_polls-IsDistinct now due s distinct,
    )
