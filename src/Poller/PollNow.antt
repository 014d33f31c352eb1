-- ===== src/Poller/PollNow.antt =====
-- `pollNow` of packages/core/src/api/state-poller.ts: the part after the hosts are synchronised,
-- which chooses the uuids and boosts them, and the workers that share them. A worker takes the
-- next uuid, waits for its poll, and begins again; it ends where none is left or where the uuid is
-- empty. What the workers hold is a `Pool`, and the orders in which the polls may end are the runs
-- of its steps. A worker that is done with a poll takes the next uuid at once; the two steps are
-- apart here, so the runs have all orders of the program and more.
pub mod Complete
pub mod Asked
use merossity.Prelude.{ℕ, ◌+◌, ◌-◌, min, max, String}
use merossity.Prelude.{not}
use merossity.Prelude.{Option, some, List, [], ◌∷◌, ◌++◌, map}
use merossity.Prelude.{◌==◌, str_eq, if◌then◌else◌}
use merossity.Prelude.{length}
use merossity.Prelude.{keep}
use merossity.Prelude.Maps.{Map}
use merossity.Prelude.Texts.{trim}
use merossity.Poller.Types.{DeviceStateDto, PollErrorDto, KnownHost}
use merossity.Poller.Service.{Service, boost_device}
use merossity.Poller.Poll.{PollResult, polled, failed}
use merossity.Poller.Tick.{poll_max_concurrency}

-- `Array.from(new Set(list))`
unfoldable pub unique : List String → List String
unique [] = []
unique (k ∷ ks) = k ∷ keep (λ j. not (str_eq j k)) (unique ks)

unfoldable pub poll_now_uuids : Option (List String) → Map KnownHost → List String
poll_now_uuids (some (u ∷ us)) known =
    unique (map trim (keep (λ v. not (str_eq (trim v) "")) (u ∷ us)))
poll_now_uuids _ known = map (λ e. e.0) known

unfoldable pub boost_all : List String → ℕ → Service → Service
boost_all [] now s = s
boost_all (uuid ∷ uuids) now s = boost_all uuids now (boost_device uuid now s)

-- The number of workers: `uuids.length || 1`, at most the limit.
unfoldable pub worker_count : List String → ℕ
worker_count uuids =
    max 1 (min poll_max_concurrency (if length uuids == 0 then 1 else length uuids))

-- The uuids that are left, the workers about to take one, those that wait for a poll, and the
-- results.
pub record Pool : Type 0 where
  pub queue : List String
  pub ready : ℕ
  pub busy : List String
  pub states : List DeviceStateDto
  pub errors : List PollErrorDto

unfoldable pub start_pool : ℕ → List String → Pool
start_pool workers uuids = record {
  queue = uuids;
  ready = workers;
  busy = [];
  states = [];
  errors = [];
}

unfoldable pub poll_now : Option (List String) → ℕ → Service → Service × Pool
unfolding boost_all
poll_now wanted now s =
    let uuids = poll_now_uuids wanted s.known_hosts in
    (boost_all uuids now s, start_pool (worker_count uuids) uuids)

-- A worker that is ready takes a uuid, or ends.
unfoldable pub take_uuid : Pool → Pool
take_uuid p = elim p.queue [
  | [] ↦ record p { ready = p.ready - 1 }
  | uuid ∷ rest ↦
      if str_eq uuid ""
      then record p { queue = rest; ready = p.ready - 1 }
      else record p { queue = rest; ready = p.ready - 1; busy = uuid ∷ p.busy }
]

unfoldable pub remove_one : String → List String → List String
remove_one uuid [] = []
remove_one uuid (k ∷ ks) = let rest = remove_one uuid ks in if str_eq k uuid then ks else k ∷ rest

-- The poll of a worker's uuid ends.
unfoldable pub finish_uuid : String → PollResult → Pool → Pool
unfolding remove_one
finish_uuid uuid (polled state) p = record p {
  busy = remove_one uuid p.busy;
  ready = p.ready + 1;
  states = p.states ++ state ∷ [];
}
finish_uuid uuid (failed error) p = record p {
  busy = remove_one uuid p.busy;
  ready = p.ready + 1;
  errors = p.errors ++ error ∷ [];
}

abbrev pub result_uuid : PollResult → String
result_uuid (polled state) = state.uuid
result_uuid (failed error) = error.uuid
