-- ===== src/Telemetry/Buckets.antt =====
-- The buckets of time that get-telemetry-power-history.ts answers.
use merossity.Prelude.{ℕ, suc, ◌+◌, ◌*◌, ◌/◌, ◌≤◌, ◌<◌}
use merossity.Prelude.{◌≡◌, refl, inl, inr, Bool, true}
use merossity.Prelude.{List, [], ◌∷◌, arith}
use merossity.Prelude.{ltb, ◌==◌}
use merossity.Prelude.{Bool-cases, length}
use merossity.Prelude.{any, All}
use native.Mathlib.Nat.{mul-le-mul_right, suc-mul}
use merossity.Telemetry.{TelemetrySampleRow, bucket_of, insert_time, bucket_times}

-- Each time of a list is after the one before by at least a bucket.
abbrev pub Spaced : (bucket : ℕ) → List ℕ → Type 0
Spaced bucket [] = Unit
Spaced bucket (t ∷ times) = All (λ u. t + bucket ≤ u) times × Spaced bucket times

module _ (bucket : ℕ) where
  -- A time at which a bucket begins.
  abbrev IsBucket : ℕ → Type 0
  IsBucket t = (n : ℕ) × (t ≡ n * bucket)

  apart : (t u : ℕ) → IsBucket t → IsBucket u → t < u → t + bucket ≤ u
  apart t u (n, e) (m, f) h = elim (Bool-cases (ltb n m)) [
    | inl g ↦
        let next : suc n ≤ m = ground (arith, g) in
        let step = mul-le-mul_right bucket next in omega (arith, e, f, suc-mul n bucket, step)
    | inr g ↦
        let back : m ≤ n = ground (arith, g) in
        let step = mul-le-mul_right bucket back in omega (arith, e, f, h, step)
  ]

  insert_time-All :
      (P : ℕ → Type 0) (t : ℕ) (times : List ℕ) → P t → All P times → All P (insert_time t times)
  unfolding insert_time
  insert_time-All P t [] p h = (p, tt)
  insert_time-All P t (u ∷ times) p h = elim (Bool-cases (ltb t u)) [
    | inl e ↦ rw e (p, h)
    | inr e ↦ elim (Bool-cases (t == u)) [
      | inl f ↦ rw (e, f) h
      | inr f ↦ rw (e, f) (h.0, insert_time-All P t times p h.1)
    ]
  ]

  earlier :
      (t u : ℕ) (times : List ℕ)
      → t + bucket ≤ u
      → All (λ v. u + bucket ≤ v) times
      → All (λ v. t + bucket ≤ v) times
  earlier t u [] h k = tt
  earlier t u (v ∷ times) h k = (omega (arith, h, k.0), earlier t u times h k.1)

  insert_time-Spaced :
      (t : ℕ) (times : List ℕ)
      → IsBucket t
      → All IsBucket times
      → Spaced bucket times
      → Spaced bucket (insert_time t times)
  unfolding insert_time
  insert_time-Spaced t [] b h s = (tt, tt)
  insert_time-Spaced t (u ∷ times) b h s = elim (Bool-cases (ltb t u)) [
    | inl e ↦
        let far = apart t u b h.0 (ground (arith, e)) in rw e ((far, earlier t u times far s.0), s)
    | inr e ↦ elim (Bool-cases (t == u)) [
      | inl f ↦ rw (e, f) s
      | inr f ↦
          let far = apart u t h.0 b (ground (arith, e, f)) in
          rw (e, f)
            (
              insert_time-All (λ v. u + bucket ≤ v) t times far s.0,
              insert_time-Spaced t times b h.1 s.1,
            )
    ]
  ]

  pub bucket_times-Spaced :
      (rows : List TelemetrySampleRow)
      → All IsBucket (bucket_times bucket rows) × Spaced bucket (bucket_times bucket rows)
  unfolding bucket_times
  bucket_times-Spaced [] = (tt, tt)
  bucket_times-Spaced (row ∷ rows) =
      let (buckets, spaced) = bucket_times-Spaced rows in
      let t = bucket_of bucket row.at_ms in
      let times = bucket_times bucket rows in
      let is : IsBucket t = (row.at_ms / bucket, refl) in
      (insert_time-All IsBucket t times is buckets, insert_time-Spaced t times is buckets spaced)

  -- A list of times that are apart is no longer than the time that it spans.
  pub Spaced-length :
      (hi t : ℕ) (times : List ℕ)
      → Spaced bucket (t ∷ times)
      → All (λ u. u ≤ hi) (t ∷ times)
      → t + length times * bucket ≤ hi
  Spaced-length hi t [] s h = omega (arith, h.0)
  Spaced-length hi t (u ∷ times) s h =
      let rest = Spaced-length hi u times s.1 h.1 in
      omega (arith, rest, s.0.0, suc-mul (length times) bucket)

  pub bucket_times-All :
      (P : ℕ → Type 0) (rows : List TelemetrySampleRow)
      → All (λ row. P (bucket_of bucket row.at_ms)) rows
      → All P (bucket_times bucket rows)
  unfolding bucket_times
  bucket_times-All P [] h = tt
  bucket_times-All P (row ∷ rows) (p, h) =
      insert_time-All P (bucket_of bucket row.at_ms) (bucket_times bucket rows) p
        (bucket_times-All P rows h)

abbrev pub has_time : ℕ → List ℕ → Bool
has_time t times = any (λ u. u == t) times

has_time-insert_time : (t : ℕ) (times : List ℕ) → has_time t (insert_time t times) ≡ true
unfolding insert_time
has_time-insert_time t [] = ground arith
has_time-insert_time t (u ∷ times) = elim (Bool-cases (ltb t u)) [
  | inl e ↦ rw e (ground arith)
  | inr e ↦ elim (Bool-cases (t == u)) [
    | inl f ↦ rw (e, f) (ground (arith, f))
    | inr f ↦ rw (e, f) (ground (arith, has_time-insert_time t times))
  ]
]

insert_time_keeps :
    (t u : ℕ) (times : List ℕ) → has_time u times ≡ true → has_time u (insert_time t times) ≡ true
unfolding insert_time
insert_time_keeps t u [] h = cc
insert_time_keeps t u (v ∷ times) h = elim (Bool-cases (ltb t v)) [
  | inl e ↦ rw e (ground (arith, h))
  | inr e ↦ elim (Bool-cases (t == v)) [
    | inl f ↦ rw (e, f) h
    | inr f ↦ elim (Bool-cases (v == u)) [
      | inl g ↦ rw (e, f, g) refl
      | inr g ↦ rw (e, f, g) (insert_time_keeps t u times (rw g at h))
    ]
  ]
]

bucket_times_cover :
    (bucket t : ℕ) (rows some_rows : List TelemetrySampleRow)
    → All (λ row. has_time (bucket_of bucket row.at_ms) (bucket_times bucket rows) ≡ true) some_rows
    → All
        (λ row.
          has_time (bucket_of bucket row.at_ms) (insert_time t (bucket_times bucket rows)) ≡ true)
        some_rows
bucket_times_cover bucket t rows [] h = tt
bucket_times_cover bucket t rows (row ∷ more) (p, h) = (
  insert_time_keeps t (bucket_of bucket row.at_ms) (bucket_times bucket rows) p,
  bucket_times_cover bucket t rows more h,
)

pub bucket_times-covers :
    (bucket : ℕ) (rows : List TelemetrySampleRow)
    → All (λ row. has_time (bucket_of bucket row.at_ms) (bucket_times bucket rows) ≡ true) rows
unfolding bucket_times
bucket_times-covers bucket [] = tt
bucket_times-covers bucket (row ∷ rows) =
    let t = bucket_of bucket row.at_ms in
    (
      has_time-insert_time t (bucket_times bucket rows),
      bucket_times_cover bucket t rows rows (bucket_times-covers bucket rows),
    )
