-- ===== src/Lan/Scan.antt =====
-- `resolveHostByUuidScan` of packages/core/src/meross/lan/discovery.ts: workers that share the
-- addresses of a range, each asking one address at a time for its uuid, until one is found or none
-- is left. What the workers hold is a `Scan`, and the orders in which the answers may come are the
-- runs of its steps. A worker that goes on after an answer takes the next address at once; the two
-- steps are apart here, so the runs have all orders of the program and more.
pub mod Search
use merossity.Prelude.{ℕ, ◌+◌, ◌-◌, max, String}
use merossity.Prelude.{Bool, false, not}
use merossity.Prelude.{◌&&◌, ◌||◌, Option, none, some, List, [], ◌∷◌}
use merossity.Prelude.{str_eq, if◌then◌else◌}
use merossity.Prelude.{all}
use merossity.Prelude.Results.{Result, ok, err}
use merossity.Prelude.Texts.{trim}
use merossity.Json.{Value, text, get, coalesce}
use merossity.Poller.PollNow.{remove_one}
use merossity.Lan.Mac.{normalize_mac}

abbrev hardware : Value → Value
hardware resp = get "hardware" (get "system" (get "all" (get "payload" resp)))

abbrev system_part : (part : String) → Value → Value
system_part part resp = get part (get "system" (get "all" (get "payload" resp)))

unfoldable pub extract_lan_uuid : Value → Option String
extract_lan_uuid resp =
    let h = hardware resp in
    elim (coalesce (get "uuid" h)
      (coalesce (get "UUID" h) (coalesce (get "deviceUuid" h) (get "deviceUUID" h)))) [
        | text t ↦ if str_eq (trim t) "" then none else some (trim t)
        | _ ↦ none
      ]

unfoldable pub extract_lan_mac : (lower_case : String → String) → Value → Option String
extract_lan_mac lower_case resp =
    let h = hardware resp in
    let n = system_part "network" resp in
    let w = system_part "wifi" resp in
    let raw = coalesce (get "macAddress" h) (
      coalesce (get "mac" h) (
        coalesce (get "macaddr" h) (
          coalesce (get "MAC" h) (
            coalesce (get "macAddress" n)
              (coalesce (get "mac" n) (coalesce (get "macAddress" w) (get "mac" w))))))) in
    elim raw [ text t ↦ if str_eq (trim t) "" then none else normalize_mac lower_case t | _ ↦ none ]

pub record FoundHost : Type 0 where
  pub host : String
  pub mac : Option String

-- The device that is looked for.
pub record Target : Type 0 where
  pub uuid : String
  pub mac : Option String

abbrev mac_matches : Option String → Option String → Bool
mac_matches (some a) (some b) = not (str_eq a "") && str_eq b a
mac_matches _ _ = false

-- What a worker makes of the answer of an address; an error is passed over.
unfoldable pub match_host :
    (lower_case : String → String) → Target → (ip : String) → Result Value → Option FoundHost
match_host lower_case target ip (err message) = none
match_host lower_case target ip (ok resp) =
    let mac = extract_lan_mac lower_case resp in
    let is_it : Bool = elim (extract_lan_uuid resp) [
      | none ↦ false
      | some got ↦ str_eq got target.uuid
    ] in
    if is_it || mac_matches target.mac mac then some (record { host = ip; mac = mac }) else none

-- The addresses that are left, the workers about to take one, those that wait for an answer, and
-- the device.
pub record Scan : Type 0 where
  pub left : List String
  pub ready : ℕ
  pub busy : List String
  pub found : Option FoundHost

unfoldable pub start_scan : (concurrency : ℕ) → List String → Scan
start_scan concurrency ips = record {
  left = ips;
  ready = max 1 concurrency;
  busy = [];
  found = none;
}

-- A worker that is ready takes an address, or ends.
unfoldable pub take_ip : Scan → Scan
take_ip s = elim s.found [
  | some f ↦ record s { ready = s.ready - 1 }
  | none ↦ elim s.left [
    | [] ↦ record s { ready = s.ready - 1 }
    | ip ∷ rest ↦ record s { left = rest; ready = s.ready - 1; busy = ip ∷ s.busy }
  ]
]

-- The answer of an address comes; the worker that found the device ends.
unfoldable pub finish_ip :
    (lower_case : String → String) → Target → (ip : String) → Result Value → Scan → Scan
finish_ip lower_case target ip answer s = elim (match_host lower_case target ip answer) [
  | none ↦ record s { busy = remove_one ip s.busy; ready = s.ready + 1 }
  | some f ↦ record s { busy = remove_one ip s.busy; found = some f }
]
