-- ===== src/Tests/Workers.antt =====
-- A run of the workers of `pollNow` in packages/core/src/api/state-poller.ts.
use merossity.Prelude.{◌+◌, ◌*◌, ◌≤◌}
use merossity.Prelude.{◌≡◌, refl, ◌⊎◌}
use merossity.Prelude.{some, [], ◌∷◌, arith}
use merossity.Prelude.Texts.{trim}
use merossity.Poller.Service.{new_service}
use merossity.Poller.Poll.{PollResult, failed}
use merossity.Poller.PollNow.{
  Pool, poll_now, poll_now_uuids, worker_count, unique, start_pool, take_uuid, finish_uuid,
}
use merossity.Poller.PollNow.Complete.{
  PoolStep, PoolRun, begun, then_step, takes, finishes, IsEnded, count_results, poll_now_ends,
}
use merossity.Poller.PollNow.Asked.{poll_now_lem}

abbrev first_pool : Pool
first_pool = (poll_now (some ("plug" ∷ [])) 5 new_service).1

abbrev no_answer : PollResult
no_answer = failed (record { uuid = "plug"; code = "timeout"; message = "Timeout"; at = 9 })

abbrev last_pool : Pool
last_pool = take_uuid (finish_uuid "plug" no_answer (take_uuid first_pool))

whole_run : PoolRun first_pool 3 last_pool
unfolding poll_now poll_now_uuids worker_count unique start_pool take_uuid finish_uuid trim
whole_run =
    then_step
      (then_step (then_step begun (takes first_pool (omega arith)))
        (finishes (take_uuid first_pool) no_answer refl))
      (takes (finish_uuid "plug" no_answer (take_uuid first_pool)) (omega arith))

last_pool-IsEnded : IsEnded last_pool
unfolding poll_now poll_now_uuids worker_count unique start_pool take_uuid finish_uuid trim
last_pool-IsEnded = (refl, refl)

poll_now_lem_example : count_results "plug" last_pool ≡ 1
unfolding trim
poll_now_lem_example = poll_now_lem "plug" [] 5 new_service "plug" whole_run last_pool-IsEnded

one_take :
    PoolRun
      (start_pool 2 ("plug" ∷ "lamp" ∷ []))
      1
      (take_uuid (start_pool 2 ("plug" ∷ "lamp" ∷ [])))
unfolding start_pool
one_take = then_step begun (takes (start_pool 2 ("plug" ∷ "lamp" ∷ [])) (omega arith))

poll_now_ends_example :
    (1 ≤ 3 * 2 + 2)
    × (IsEnded (take_uuid (start_pool 2 ("plug" ∷ "lamp" ∷ [])))
        ⊎ ((q : Pool) × PoolStep (take_uuid (start_pool 2 ("plug" ∷ "lamp" ∷ []))) q))
poll_now_ends_example = poll_now_ends 2 ("plug" ∷ "lamp" ∷ []) one_take
