-- ===== src/Poller/Backoff.antt =====
-- Poll intervals of packages/core/src/api/state-poller.ts. Times are milliseconds. A percentage is
-- a number of hundredths and a random value a numerator over 2^53, as `Math.random` returns; the
-- products are exact where the source rounds to a double before `Math.round`.
pub mod Bounds
use merossity.Prelude.{ℕ, ◌+◌, ◌-◌, ◌*◌, ◌/◌, min, max}
use merossity.Prelude.{Bool, false}
use merossity.Prelude.{◌&&◌, Option, none, some, List, [], ◌∷◌}
use merossity.Prelude.{ltb, leb, if◌then◌else◌}
use merossity.Prelude.{get_or, length, get_elem?}
use merossity.Poller.Types.{PollMeta}

abbrev pub failure_backoff_sequence_ms : List ℕ
failure_backoff_sequence_ms = 30000 ∷ 60000 ∷ 120000 ∷ 300000 ∷ []

abbrev pub stable_interval_ms : ℕ
stable_interval_ms = 45000

abbrev pub hot_interval_ms : ℕ
hot_interval_ms = 12000

abbrev pub boost_interval_ms : ℕ
boost_interval_ms = 8000

abbrev pub hot_window_ms : ℕ
hot_window_ms = 120000

abbrev pub boost_window_ms : ℕ
boost_window_ms = 30000

abbrev pub random_scale : ℕ
random_scale = 9007199254740992

-- The index is in range by the `min`, so the default is never read.
unfoldable pub failure_backoff_ms : ℕ → ℕ
failure_backoff_ms failure_count =
    if leb failure_count 0
    then 0
    else get_or
        (get_elem? failure_backoff_sequence_ms
          (min (length failure_backoff_sequence_ms - 1) (failure_count - 1)))
        0

-- `base + (2r - 1) * base * percent`, rounded half up, and at least a second.
unfoldable pub with_jitter_ms : (base_ms percent random_value : ℕ) → ℕ
with_jitter_ms base_ms percent random_value =
    let delta = base_ms * min percent 100 in
    let r = min random_value random_scale in
    max 1000 (
      (2 * (100 * random_scale * base_ms + 2 * (r * delta) - random_scale * delta)
        + 100 * random_scale)
      / (200 * random_scale))

-- `t && p(t)` for a time that may be null; 0 is false too.
abbrev pub time_and : Option ℕ → (ℕ → Bool) → Bool
time_and none p = false
time_and (some t) p = ltb 0 t && p t

unfoldable pub next_interval_ms : PollMeta → (now random_value : ℕ) → ℕ
unfolding failure_backoff_ms with_jitter_ms
next_interval_ms meta now random_value =
    if ltb 0 meta.failure_count
    then failure_backoff_ms meta.failure_count
    else if time_and meta.boost_until_at (λ t. ltb now t)
    then with_jitter_ms boost_interval_ms 10 random_value
    else if time_and meta.last_change_at (λ t. ltb (now - t) hot_window_ms)
    then with_jitter_ms hot_interval_ms 15 random_value
    else with_jitter_ms stable_interval_ms 15 random_value
