-- ===== src/Api/Hosts.antt =====
-- packages/core/src/api/resolve-host.ts: the handler that looks a device up on the local network
-- and keeps its host in the configuration. What the look-ups give is the record `HostLookups`; the
-- ping sweeps are only seen in what the ARP table has. Reading and writing the file of the
-- configuration does not fail. The limits on time are not told.
pub mod Kept
use merossity.Prelude.{ℕ, zero, suc, ◌+◌, ◌-◌, ◌*◌, ◌/◌, ◌%◌, ◌^◌, ◌≤◌, ◌<◌, min, max, String}
use merossity.Prelude.{◌≡◌, refl, sym, ap, ◌∙◌, ◌≢◌, ◌↔◌, ◌⊎◌, inl, inr, Bool, true, false, not}
use merossity.Prelude.{
  ◌&&◌, ◌||◌, Option, none, some, List, [], ◌∷◌, ◌++◌, map, arith, eq_iff, eq_refl,
}
use merossity.Prelude.{ltb, leb, ◌==◌, str_eq, if◌then◌else◌, ltb→lt, lt→ltb, leb→le, ==_iff, tests}
use merossity.Prelude.{
  Bool-cases, Option-cases, is_some, get_or, or_else, map_option, length, get_elem?,
}
use merossity.Prelude.{take, drop, find, any, all, keep, All, All-append, All-take, All-keep}
use Prim.Native.String.{◌++◌ as append_text}
use merossity.Prelude.Maps.{Map, lookup, insert}
use merossity.Prelude.Results.{Result, ok, err}
use merossity.Json.{Value, get, coalesce, is_truthy}
use merossity.Poller.Reading.{require_lan_key}
use merossity.Poller.Recovery.{non_empty, text_or_else}
use merossity.Lan.Mac.{normalize_mac}
use merossity.Lan.Scan.{FoundHost}
use merossity.Api.Client.{Reply, done, refused, to_text}
use merossity.Cloud.Login.{MerossConfig, DeviceHost}

-- What the handler asks for: the range of the first interface, the key of the environment, the
-- address of a MAC address in the ARP table after a sweep of a range, and the scan of a range for
-- a device.
pub record HostLookups : Type 0 where
  pub default_cidr : Option String
  pub env_key : Option String
  pub arp : (swept : Option String) (target : String) → Option String
  pub scan : (uuid cidr key : String) (target_mac : Option String) → Option FoundHost

-- An error that is thrown ends the handler without a reply.
abbrev pub Answer : Type 0 → Type 0
Answer A = Result (Reply A)

infixl 5 ◌>>=◌
unfoldable pub ◌>>=◌ : {A B : Type 0} → Answer A → (A → Answer B) → Answer B
ok (done a) >>= next = next a
ok (refused code message) >>= next = ok (refused code message)
err message >>= next = err message

abbrev found_it : {A : Type 0} → A → Answer A
found_it a = ok (done a)

abbrev pub key_for : Option String → MerossConfig → Answer String
key_for env_key cfg = elim (require_lan_key (map_option (λ c. c.0.key) cfg.cloud) env_key) [
  | ok key ↦ found_it key
  | err message ↦ err message
]

-- The address that is found, its MAC address, and the range that was scanned.
pub record Found : Type 0 where
  pub ip : Option String
  pub mac : Option String
  pub cidr_tried : Option String

pub record Resolved : Type 0 where
  pub uuid : String
  pub host : String
  pub mac : Option String

-- What a scan gives, `mac` being known before.
abbrev pub scanned : Option String → (cidr : String) → Option FoundHost → Found
scanned mac cidr none = record { ip = none; mac = mac; cidr_tried = some cidr }
scanned mac cidr (some f) = record {
  ip = non_empty f.host;
  mac = text_or_else f.mac mac;
  cidr_tried = some cidr;
}

abbrev pub cidr_to_use : HostLookups → (cidr : String) → String
cidr_to_use l cidr = if str_eq cidr "" then get_or l.default_cidr "" else cidr

-- By the MAC address in the ARP table, or else by a scan.
unfoldable pub find_by_mac :
    (lower_case : String → String)
    → HostLookups
    → MerossConfig
    → (uuid mac cidr : String) → Answer Found
find_by_mac lower_case l cfg uuid mac cidr = elim (normalize_mac lower_case mac) [
  | none ↦ err (append_text "Invalid MAC address: " mac)
  | some target ↦
      let effective = cidr_to_use l cidr in
      let by_scan : Answer Found = key_for l.env_key cfg >>= λ key.
      found_it (scanned (some target) effective (l.scan uuid effective key (some target))) in
      elim (text_or_else (l.arp (non_empty cidr) target) none) [
        | some ip ↦ found_it (record { ip = some ip; mac = some target; cidr_tried = none })
        | none ↦
            if str_eq effective ""
            then found_it (record { ip = none; mac = some target; cidr_tried = none })
            else by_scan
      ]
]

unfoldable pub find_by_uuid : HostLookups → MerossConfig → (uuid cidr : String) → Answer Found
find_by_uuid l cfg uuid cidr =
    let effective = cidr_to_use l cidr in
    let by_scan : Answer Found = key_for l.env_key cfg >>= λ key.
    found_it (scanned none effective (l.scan uuid effective key none)) in
    if str_eq effective ""
    then ok (
        refused "missing_mac"
          "No MAC address available. Provide a CIDR (e.g. 192.168.68.0/22) so we can scan the LAN by uuid.")
    else by_scan

-- The sentences of the message that stand for something, joined by spaces.
abbrev not_found_by_uuid : (tried suggested : Option String) → String
not_found_by_uuid tried suggested =
    let range : String = elim (text_or_else tried none) [
      | none ↦ ""
      | some cidr ↦ append_text " CIDR tried: " (append_text cidr ".")
    ] in
    let other : String = elim (text_or_else suggested none) [
      | none ↦ ""
      | some cidr ↦
          if str_eq cidr (get_or tried "")
          then ""
          else append_text " Suggested: " (append_text cidr ".")
    ] in
    append_text "Could not find device on LAN by uuid."
      (append_text range (append_text other " Confirm the device is awake on that network."))

abbrev not_found : (mac : String) (tried suggested : Option String) → String
not_found mac tried suggested =
    if str_eq mac ""
    then not_found_by_uuid tried suggested
    else if is_some (text_or_else tried none)
    then "Could not resolve IP from MAC (and LAN scan by uuid did not find it). Ensure the device is online and CIDR is correct."
    else "Could not resolve IP from MAC. Provide a CIDR (e.g. 192.168.1.0/24) so we can scan the LAN by uuid, and ensure the device is online."

abbrev prior_mac : Option DeviceHost → Option String
prior_mac none = none
prior_mac (some prev) = prev.mac

-- The entry that is written: a MAC address that is found stands over the one that is there.
unfoldable pub kept_entry :
    (now host : String) (mac : Option String) (prev : Option DeviceHost) → DeviceHost
kept_entry now host mac prev = record {
  host = host;
  mac = text_or_else mac (text_or_else (prior_mac prev) none);
  updated_at = now;
}

unfoldable pub store_host :
    (now uuid : String) (host : String) (mac : Option String) → MerossConfig → MerossConfig
store_host now uuid host mac cfg = record cfg {
  hosts = insert uuid (kept_entry now host mac (lookup uuid cfg.hosts)) cfg.hosts;
}

-- The end of the handler.
unfoldable pub keep_found :
    (now : String) → MerossConfig → Answer Resolved → Answer Resolved × MerossConfig
keep_found now cfg (ok (done r)) = (ok (done r), store_host now r.uuid r.host r.mac cfg)
keep_found now cfg (ok (refused code message)) = (ok (refused code message), cfg)
keep_found now cfg (err message) = (err message, cfg)

module _ (print_value : Value → String) (lower_case : String → String) where
  -- What the request asks for is found, or is refused.
  unfoldable pub find_host : HostLookups → MerossConfig → (uuid mac cidr : String) → Answer Resolved
  find_host l cfg uuid mac cidr = do
    found ←
        if str_eq mac ""
        then find_by_uuid l cfg uuid cidr
        else find_by_mac lower_case l cfg uuid mac cidr
    elim found.ip [
      | none ↦ ok (refused "host_not_found" (not_found mac found.cidr_tried l.default_cidr))
      | some ip ↦ found_it (record { uuid = uuid; host = ip; mac = text_or_else found.mac none })
    ]

  -- `now` is the time that is written down. The configuration is read for the key, and again when
  -- the host is kept: it may have changed from `before` to `cfg`.
  unfoldable pub resolve_host :
      HostLookups
      → (now : String) → (body : Value) → (before cfg : MerossConfig)
      → Answer Resolved × MerossConfig
  resolve_host l now body before cfg =
      let uuid = to_text print_value (get "uuid" body) in
      let mac = to_text print_value (coalesce (get "mac" body) (get "macAddress" body)) in
      let cidr =
        if is_truthy (get "cidr" body) then to_text print_value (get "cidr" body) else "" in
      if str_eq uuid ""
      then (ok (refused "missing_uuid" "Missing uuid"), cfg)
      else keep_found now cfg (find_host l before uuid mac cidr)
