-- ===== src/Poller/Backoff/Bounds.antt =====
-- The bounds of the poll intervals.
use merossity.Prelude.{ℕ, ◌+◌, ◌-◌, ◌*◌, ◌/◌, ◌≤◌, ◌<◌, min, max}
use merossity.Prelude.{◌≡◌, ◌⊎◌}
use merossity.Prelude.{arith}
use merossity.Prelude.{◌⊎◌}
use merossity.Poller.Types.{PollMeta}
use merossity.Poller.Backoff.{failure_backoff_ms, with_jitter_ms, next_interval_ms, random_scale}

-- The back-off after more failures is never shorter; without a failure it is 0, and after one it
-- lies between 30 seconds and 5 minutes, which it reaches at the fourth.
pub failure_backoff_ms_schedule :
    (a b : ℕ)
    → a ≤ b
    → (failure_backoff_ms a ≤ failure_backoff_ms b)
      × (failure_backoff_ms 0 ≡ 0)
      × (30000 ≤ failure_backoff_ms (a + 1))
      × (failure_backoff_ms (a + 4) ≡ 300000)
unfolding failure_backoff_ms
failure_backoff_ms_schedule a b h = (ground arith, ground arith, ground arith, ground arith)

mul-le-mul_right : (x y d : ℕ) → x ≤ y → x * d ≤ y * d
mul-le-mul_right x y d h = grind arith

jitter_core :
    (base delta x : ℕ)
    → delta ≤ 100 * base
    → x ≤ random_scale * delta
    → (100
          * ((2 * (100 * random_scale * base + 2 * x - random_scale * delta) + 100 * random_scale)
              / (200 * random_scale))
        ≤ 100 * base + delta + 50)
      × (100 * base
          ≤ 100
              * ((2 * (100 * random_scale * base + 2 * x - random_scale * delta)
                    + 100 * random_scale)
                  / (200 * random_scale))
            + delta
            + 50)
jitter_core base delta x h k = (omega arith, omega arith)

-- The jittered interval is at least a second, and differs from the base by at most the percentage
-- of it (or by what the rise to a second costs) and the rounding.
pub with_jitter_ms_bounds :
    (base percent r : ℕ)
    → (1000 ≤ with_jitter_ms base percent r)
      × (100 * with_jitter_ms base percent r
          ≤ max 100000 (100 * base + base * min percent 100 + 50))
      × (100 * base ≤ 100 * with_jitter_ms base percent r + base * min percent 100 + 50)
unfolding with_jitter_ms
with_jitter_ms_bounds base percent r =
    let delta = base * min percent 100 in
    let small : delta ≤ 100 * base =
      omega (arith, mul-le-mul_right (min percent 100) 100 base (omega arith)) in
    let below : min r random_scale * delta ≤ random_scale * delta =
      mul-le-mul_right (min r random_scale) random_scale delta (omega arith) in
    let core = jitter_core base delta (min r random_scale * delta) small below in
    (omega arith, omega (arith, core), omega (arith, core))

failure_backoff_ms_range :
    (n : ℕ) → 0 < n → (30000 ≤ failure_backoff_ms n) × (failure_backoff_ms n ≤ 300000)
unfolding failure_backoff_ms
failure_backoff_ms_range n h = (ground arith, ground arith)

boost_range : (r : ℕ) → (7200 ≤ with_jitter_ms 8000 10 r) × (with_jitter_ms 8000 10 r ≤ 8800)
boost_range r = omega (arith, with_jitter_ms_bounds 8000 10 r)

hot_range : (r : ℕ) → (10200 ≤ with_jitter_ms 12000 15 r) × (with_jitter_ms 12000 15 r ≤ 13800)
hot_range r = omega (arith, with_jitter_ms_bounds 12000 15 r)

stable_range : (r : ℕ) → (38250 ≤ with_jitter_ms 45000 15 r) × (with_jitter_ms 45000 15 r ≤ 51750)
stable_range r = omega (arith, with_jitter_ms_bounds 45000 15 r)

-- Whatever the state of a device, its next poll is 7.2 seconds to 5 minutes away; after a failure
-- it is at least 30 seconds away, and without one at most 51.75 seconds.
pub next_interval_ms_bounds :
    (meta : PollMeta) (now r : ℕ)
    → (7200 ≤ next_interval_ms meta now r)
      × (next_interval_ms meta now r ≤ 300000)
      × (((0 < meta.failure_count) × (30000 ≤ next_interval_ms meta now r))
          ⊎ ((meta.failure_count ≡ 0) × (next_interval_ms meta now r ≤ 51750)))
unfolding next_interval_ms
next_interval_ms_bounds meta now r =
    ground (
      arith,
      failure_backoff_ms_range meta.failure_count,
      boost_range r,
      hot_range r,
      stable_range r,
    )
