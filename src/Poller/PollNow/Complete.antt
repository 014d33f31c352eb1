-- ===== src/Poller/PollNow/Complete.antt =====
-- The workers of `pollNow`: they end, and they give one result for each uuid.
use merossity.Prelude.{ℕ, ◌+◌, ◌*◌, ◌≤◌, ◌<◌, String}
use merossity.Prelude.{◌≡◌, refl, ◌≢◌, ◌⊎◌, inl, inr, true, false}
use merossity.Prelude.{List, [], ◌∷◌, ◌++◌, map, arith, eq_iff, eq_refl}
use merossity.Prelude.{ltb, str_eq, if◌then◌else◌}
use merossity.Prelude.{Bool-cases, length}
use merossity.Prelude.{any, All}
use merossity.Poller.Types.{DeviceStateDto, PollErrorDto}
use merossity.Poller.Poll.{PollResult, polled, failed}
use merossity.Poller.PollNow.{Pool, start_pool, take_uuid, remove_one, finish_uuid, result_uuid}

-- One step of the workers; a poll gives a result for its uuid.
pub data PoolStep : Pool → Pool → Type 0 where
  takes : (p : Pool) → 0 < p.ready → PoolStep p (take_uuid p)
  finishes :
      (p : Pool) (result : PollResult)
      → any (λ k. str_eq k (result_uuid result)) p.busy ≡ true
      → PoolStep p (finish_uuid (result_uuid result) result p)

-- The steps of a run, by their number.
pub data PoolRun (first : Pool) : ℕ → Pool → Type 0 where
  begun : PoolRun first 0 first
  then_step : {n : ℕ} {p q : Pool} → PoolRun first n p → PoolStep p q → PoolRun first (n + 1) q

-- How often a uuid stands in a list.
abbrev pub count_key : String → List String → ℕ
count_key u [] = 0
count_key u (k ∷ ks) = let rest = count_key u ks in if str_eq k u then rest + 1 else rest

abbrev pub count_results : String → Pool → ℕ
count_results u p =
    count_key u (map (λ s. s.uuid) p.states) + count_key u (map (λ e. e.uuid) p.errors)

-- All workers have ended.
abbrev pub IsEnded : Pool → Type 0
IsEnded p = (p.ready ≡ 0) × (p.busy ≡ [])

abbrev measure : Pool → ℕ
measure p = 3 * length p.queue + 2 * length p.busy + p.ready

count_state :
    (u : String) (state : DeviceStateDto) (states : List DeviceStateDto)
    → count_key u (map (λ s. s.uuid) (states ++ state ∷ []))
      ≡ count_key u (map (λ s. s.uuid) states) + (if str_eq state.uuid u then 1 else 0)
count_state u state [] = ground arith
count_state u state (s ∷ states) = ground (arith, count_state u state states)

count_error :
    (u : String) (error : PollErrorDto) (errors : List PollErrorDto)
    → count_key u (map (λ e. e.uuid) (errors ++ error ∷ []))
      ≡ count_key u (map (λ e. e.uuid) errors) + (if str_eq error.uuid u then 1 else 0)
count_error u error [] = ground arith
count_error u error (e ∷ errors) = ground (arith, count_error u error errors)

count_remove_one :
    (u uuid : String) (ks : List String)
    → any (λ k. str_eq k uuid) ks ≡ true
    → (count_key u (remove_one uuid ks) + (if str_eq uuid u then 1 else 0) ≡ count_key u ks)
      × (length (remove_one uuid ks) + 1 ≡ length ks)
unfolding remove_one
count_remove_one u uuid [] h = cc
count_remove_one u uuid (k ∷ ks) h =
    ground (arith, eq_iff k uuid, eq_iff uuid u, eq_iff k u, count_remove_one u uuid ks)

-- What holds of the pool in a run that began with `uuids`.
abbrev Holds : List String → Pool → Type 0
Holds uuids p =
    All (λ k. k ≢ "") p.queue
    × ((0 < p.ready + length p.busy) ⊎ (p.queue ≡ []))
    × ((u : String)
        → count_key u p.queue + count_key u p.busy + count_results u p ≡ count_key u uuids)

queue_cases :
    (ks : List String) → (ks ≡ []) ⊎ ((k : String) × (rest : List String) × (ks ≡ k ∷ rest))
queue_cases [] = inl refl
queue_cases (k ∷ rest) = inr (k, rest, refl)

take_uuid-Holds :
    (uuids : List String) (p : Pool) → 0 < p.ready → Holds uuids p → Holds uuids (take_uuid p)
unfolding take_uuid
take_uuid-Holds uuids p h (named, live, sum) = elim (queue_cases p.queue) [
  | inl e ↦ rw e (tt, inr refl, λ u. rw e at sum u)
  | inr (k, ks, e) ↦
      let (full, named') = rw (e, All) at named in
      let nonempty : str_eq k "" ≡ false = ground (arith, full, eq_iff k "") in
      rw (e, nonempty) (named', inl (omega arith), λ u. ground (arith, rw e at sum u))
]

finish_uuid-Holds :
    (uuids : List String) (p : Pool) (result : PollResult)
    → any (λ k. str_eq k (result_uuid result)) p.busy ≡ true
    → Holds uuids p
    → Holds uuids (finish_uuid (result_uuid result) result p)
unfolding finish_uuid
finish_uuid-Holds uuids p (polled state) h (named, live, sum) = (
  named,
  inl (omega arith),
  λ u. omega (arith, sum u, count_remove_one u state.uuid p.busy h, count_state u state p.states),
)
finish_uuid-Holds uuids p (failed error) h (named, live, sum) = (
  named,
  inl (omega arith),
  λ u. omega (arith, sum u, count_remove_one u error.uuid p.busy h, count_error u error p.errors),
)

step-Holds : (uuids : List String) {p q : Pool} → PoolStep p q → Holds uuids p → Holds uuids q
step-Holds uuids (takes p h) k = take_uuid-Holds uuids p h k
step-Holds uuids (finishes p result h) k = finish_uuid-Holds uuids p result h k

run-Holds :
    (uuids : List String) {first : Pool} {n : ℕ} {p : Pool}
    → PoolRun first n p
    → Holds uuids first
    → Holds uuids p
run-Holds uuids begun k = k
run-Holds uuids (then_step run step) k = step-Holds uuids step (run-Holds uuids run k)

-- However the polls of at least one worker interleave, when all workers have ended there are as
-- many results for a uuid as it stands among the uuids asked for, none of which is empty.
pub poll_now_complete :
    (workers : ℕ) (uuids : List String) {n : ℕ} {p : Pool} (u : String)
    → 0 < workers
    → All (λ k. k ≢ "") uuids
    → PoolRun (start_pool workers uuids) n p
    → IsEnded p
    → count_results u p ≡ count_key u uuids
unfolding start_pool
poll_now_complete workers uuids {n} {p} u some_worker named run (none_ready, none_busy) =
    let (_, live, sum) = run-Holds uuids run (named, inl (omega arith), λ v. omega arith) in
    let empty : p.queue ≡ [] = ground (arith, none_busy) in ground (arith, sum u)

take_uuid-measure : (p : Pool) → 0 < p.ready → measure (take_uuid p) < measure p
unfolding take_uuid
take_uuid-measure p h = ground (arith, queue_cases p.queue)

finish_uuid-measure :
    (p : Pool) (result : PollResult)
    → any (λ k. str_eq k (result_uuid result)) p.busy ≡ true
    → measure (finish_uuid (result_uuid result) result p) < measure p
unfolding finish_uuid
finish_uuid-measure p (polled state) h = omega (arith, count_remove_one "" state.uuid p.busy h)
finish_uuid-measure p (failed error) h = omega (arith, count_remove_one "" error.uuid p.busy h)

step-measure : {p q : Pool} → PoolStep p q → measure q < measure p
step-measure (takes p h) = take_uuid-measure p h
step-measure (finishes p result h) = finish_uuid-measure p result h

run-measure : {first : Pool} {n : ℕ} {p : Pool} → PoolRun first n p → n + measure p ≤ measure first
run-measure begun = omega arith
run-measure (then_step run step) = omega (arith, run-measure run, step-measure step)

busy_cases : (ks : List String) → (ks ≡ []) ⊎ ((k : String) × (any (λ j. str_eq j k) ks ≡ true))
busy_cases [] = inl refl
busy_cases (k ∷ ks) = inr (k, ground (arith, eq_refl k))

next_step : (p : Pool) → IsEnded p ⊎ ((q : Pool) × PoolStep p q)
next_step p = elim (Bool-cases (ltb 0 p.ready)) [
  | inl e ↦ inr (take_uuid p, takes p (ground arith))
  | inr e ↦ elim (busy_cases p.busy) [
    | inl b ↦ inl (ground arith, b)
    | inr (k, b) ↦
        let error : PollErrorDto = record { uuid = k; code = ""; message = ""; at = 0 } in
        inr (finish_uuid k (failed error) p, finishes p (failed error) b)
  ]
]

-- The workers come to an end: a run of `workers` workers has at most three steps for each uuid and
-- one for each worker, and while a worker has not ended there is a next step.
pub poll_now_ends :
    (workers : ℕ) (uuids : List String) {n : ℕ} {p : Pool}
    → PoolRun (start_pool workers uuids) n p
    → (n ≤ 3 * length uuids + workers) × (IsEnded p ⊎ ((q : Pool) × PoolStep p q))
unfolding start_pool
poll_now_ends workers uuids {n} {p} run = (omega (arith, run-measure run), next_step p)
