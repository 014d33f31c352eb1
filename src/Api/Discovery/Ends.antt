-- ===== src/Api/Discovery/Ends.antt =====
-- The workers of discover-hosts.ts come to an end.
use merossity.Prelude.{ℕ, ◌+◌, ◌*◌, ◌≤◌, ◌<◌, String}
use merossity.Prelude.{◌⊎◌, inl, inr}
use merossity.Prelude.{List, arith, eq_refl}
use merossity.Prelude.{ltb}
use merossity.Prelude.{Bool-cases, length}
use merossity.Prelude.Results.{Result}
use merossity.Json.{Value}
use merossity.Lan.Scan.Search.{remove_one-length, list_cases}
use merossity.Api.Discovery.{Sweep, start_sweep, take_address, finish_address}
use merossity.Api.Discovery.Complete.{
  SweepStep, takes, finishes, SweepRun, begun, then_step, IsOver,
}

abbrev measure : Sweep → ℕ
measure s = 3 * length s.left + 2 * length s.busy + s.ready

take_address-lt : (s : Sweep) → 0 < s.ready → measure (take_address s) < measure s
unfolding take_address
take_address-lt s r = elim (list_cases s.left) [
  | inl e ↦ rw e (omega (arith, r))
  | inr (ip, rest, e) ↦ rw e (omega (arith, r))
]

module _ (lower_case : String → String) (now_of : String → String)
    (answers : String → Result Value) where
  step-lt : {p q : Sweep} → SweepStep lower_case now_of answers p q → measure q < measure p
  unfolding finish_address
  step-lt (takes s r) = take_address-lt s r
  step-lt (finishes s ip b) = let k = remove_one-length ip s.busy b in omega (arith, k)

  run-le :
      {first s : Sweep} {n : ℕ}
      → SweepRun lower_case now_of answers first n s
      → n + measure s ≤ measure first
  run-le begun = omega arith
  run-le (then_step run step) = let h = run-le run in let k = step-lt step in omega (arith, h, k)

  -- A run has at most three steps for each address and one for each worker, and while a worker has
  -- not ended there is a next step.
  pub sweep_ends :
      (workers : ℕ) (ips : List String) {n : ℕ} {s : Sweep}
      → SweepRun lower_case now_of answers (start_sweep workers ips) n s
      → (n ≤ 3 * length ips + workers)
        × (IsOver lower_case now_of answers s
            ⊎ ((q : Sweep) × SweepStep lower_case now_of answers s q))
  unfolding start_sweep
  sweep_ends workers ips {n} {s} run =
      let h = run-le run in
      (
        omega (arith, h),
        elim (Bool-cases (ltb 0 s.ready)) [
          | inl e ↦ inr (take_address s, takes s (ground arith))
          | inr e ↦ elim (list_cases s.busy) [
            | inl b ↦ inl (ground arith, b)
            | inr (ip, rest, b) ↦ inr (
              finish_address lower_case now_of ip (answers ip) s,
              finishes s ip (rw b (ground (arith, eq_refl ip))),
            )
          ]
        ],
      )
