-- ===== src/Api/Discovery.antt =====
-- packages/core/src/api/discover-hosts.ts: workers that share the addresses of a range and ask each
-- for its uuid, until none is left; what answers is merged into the hosts of the configuration.
-- What the workers hold is a `Sweep`, and the orders in which the answers may come are the runs of
-- its steps. A worker that goes on after an answer takes the next address at once; the two steps
-- are apart here, so the runs have all orders of the program and more. The ping sweep and the
-- limits on time are not told.
pub mod Merged
pub mod Complete
pub mod Ends
use merossity.Prelude.{ℕ, zero, suc, ◌+◌, ◌-◌, ◌*◌, ◌/◌, ◌%◌, ◌^◌, ◌≤◌, ◌<◌, min, max, String}
use merossity.Prelude.{◌≡◌, refl, sym, ap, ◌∙◌, ◌≢◌, ◌↔◌, ◌⊎◌, inl, inr, Bool, true, false, not}
use merossity.Prelude.{
  ◌&&◌, ◌||◌, Option, none, some, List, [], ◌∷◌, ◌++◌, map, arith, eq_iff, eq_refl,
}
use merossity.Prelude.{ltb, leb, ◌==◌, str_eq, if◌then◌else◌, ltb→lt, lt→ltb, leb→le, ==_iff, tests}
use merossity.Prelude.{
  Bool-cases, Option-cases, is_some, get_or, or_else, map_option, length, get_elem?,
}
use merossity.Prelude.{take, drop, find, any, all, keep, All, All-append, All-take, All-keep}
use Prim.Native.String.{◌++◌ as append_text}
use merossity.Prelude.Maps.{Map, insert}
use merossity.Prelude.Results.{Result, ok, err}
use merossity.Prelude.Integers.{pos, negsuc}
use merossity.Json.{Number, nan, finite, infinity, minus_infinity, Value, get, is_truthy, unit}
use merossity.Poller.Digest.{to_number}
use merossity.Poller.PollNow.{remove_one}
use merossity.Lan.Scan.{extract_lan_uuid, extract_lan_mac}
use merossity.Cloud.Login.{MerossConfig, DeviceHost}
use merossity.Api.Client.{Reply, done, refused, to_text, is_undefined}
use merossity.Api.Hosts.{Answer, ◌>>=◌, key_for}

-- The addresses that are left, the workers about to take one, those that wait for an answer, and
-- the hosts that are found, by their uuids.
pub record Sweep : Type 0 where
  pub left : List String
  pub ready : ℕ
  pub busy : List String
  pub found : Map DeviceHost

unfoldable pub start_sweep : (concurrency : ℕ) → List String → Sweep
start_sweep concurrency ips = record { left = ips; ready = concurrency; busy = []; found = [] }

-- A worker that is ready takes an address, or ends.
unfoldable pub take_address : Sweep → Sweep
take_address s = elim s.left [
  | [] ↦ record s { ready = s.ready - 1 }
  | ip ∷ rest ↦ record s { left = rest; ready = s.ready - 1; busy = ip ∷ s.busy }
]

module _ (lower_case : String → String) (now_of : (ip : String) → String) where
  -- What the answer of an address says; `now_of` is the time at which it comes.
  unfoldable pub entry_of : (ip : String) → Result Value → Option (String × DeviceHost)
  entry_of ip (err message) = none
  entry_of ip (ok resp) =
      map_option
        (λ uuid. (
          uuid,
          record { host = ip; mac = extract_lan_mac lower_case resp; updated_at = now_of ip },
        ))
        (extract_lan_uuid resp)

  abbrev pub with_entry : Option (String × DeviceHost) → Map DeviceHost → Map DeviceHost
  with_entry none found = found
  with_entry (some (uuid, entry)) found = insert uuid entry found

  -- The answer of an address comes.
  unfoldable pub finish_address : (ip : String) → Result Value → Sweep → Sweep
  finish_address ip answer s = record s {
    ready = s.ready + 1;
    busy = remove_one ip s.busy;
    found = with_entry (entry_of ip answer) s.found;
  }

-- `{ ...hosts, ...found }`
unfoldable pub merge_hosts : Map DeviceHost → Map DeviceHost → Map DeviceHost
merge_hosts hosts [] = hosts
merge_hosts hosts ((uuid, entry) ∷ found) = merge_hosts (insert uuid entry hosts) found

-- The length of an array made for `Math.max(1, Math.floor(n))`; `none` where that throws.
unfoldable pub worker_number : Number → Option ℕ
worker_number nan = some 0
worker_number infinity = none
worker_number minus_infinity = some 1
worker_number (finite (pos z)) = if ltb (z / unit) (2 ^ 32) then some (max 1 (z / unit)) else none
worker_number (finite (negsuc n)) = some 1

-- What the workers are started with.
pub record Start : Type 0 where
  pub cidr : String
  pub key : String
  pub sweep : Sweep

module _ (parse_number : Value → Number) (print_value : Value → String) where
  abbrev pub concurrency_in : Value → Option ℕ
  concurrency_in v = if is_undefined v then some 24 else worker_number (to_number parse_number v)

  -- The handler as far as its workers; `hosts_in` is `listHostsInCidr`, `none` where it throws.
  unfoldable pub start_discovery :
      (default_cidr env_key : Option String)
      → (hosts_in : String → Option (List String)) → MerossConfig
      → (body : Value) → Answer Start
  start_discovery default_cidr env_key hosts_in cfg body =
      let asked =
        if is_truthy (get "cidr" body) then to_text print_value (get "cidr" body) else "" in
      let cidr = if str_eq asked "" then get_or default_cidr "" else asked in
      let started : Answer Start = key_for env_key cfg >>= λ key. elim (hosts_in cidr) [
        | none ↦ ok (refused "invalid_cidr" (append_text "Invalid CIDR: " cidr))
        | some ips ↦ elim (concurrency_in (get "concurrency" body)) [
          | none ↦ err "Invalid array length"
          | some workers ↦
              ok (done (record { cidr = cidr; key = key; sweep = start_sweep workers ips }))
        ]
      ] in
      if str_eq cidr "" then ok (refused "missing_cidr" "Missing cidr") else started

-- The body of the answer.
pub record Discovered : Type 0 where
  pub cidr : String
  pub count : ℕ
  pub hosts : Map DeviceHost

-- The rest of the handler, once all workers have ended.
unfoldable pub finish_discovery : Start → Sweep → MerossConfig → Discovered × MerossConfig
finish_discovery start s cfg = (
  record { cidr = start.cidr; count = length s.found; hosts = s.found },
  record cfg { hosts = merge_hosts cfg.hosts s.found },
)
