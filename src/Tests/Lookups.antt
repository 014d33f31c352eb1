-- ===== src/Tests/Lookups.antt =====
-- Looking devices up on the local network, and the groups of the inventory.
use merossity.Prelude.{String}
use merossity.Prelude.{◌≡◌, refl, inl, Bool, true}
use merossity.Prelude.{none, some, List, [], ◌∷◌, ◌++◌, arith}
use merossity.Prelude.{or_else}
use merossity.Prelude.{All}
use mathlib.Core.List.{Perm}
use merossity.Prelude.Maps.{Map, lookup, insert}
use merossity.Prelude.Sorting.{IsSorted}
use merossity.Prelude.Texts.{trim}
use merossity.Prelude.Results.{Result, ok}
use merossity.Json.{Value, Items, nil, cons, text, object, field, end, get, coalesce}
use merossity.Poller.PollNow.{remove_one}
use merossity.Lan.Scan.{extract_lan_uuid, extract_lan_mac}
use merossity.Cloud.Login.{MerossConfig, DeviceHost}
use merossity.Api.Hosts.{HostLookups, resolve_host}
use merossity.Api.Hosts.Kept.{KeepsOrLeaves, wanted_by, resolve_host-KeepsOrLeaves}
use merossity.Api.Discovery.{
  Sweep, Start, start_sweep, take_address, finish_address, entry_of, finish_discovery,
}
use merossity.Api.Discovery.Complete.{
  SweepRun, begun, then_step, takes, finishes, Answers, discovery_finds,
}
use merossity.Inventory.{device_le, group_devices_for_control}
use merossity.Inventory.Grouped.{listed, IsReady, IsInaccessible, group_devices_for_control-split}
use merossity.Cloud.Login.{lan_config}

abbrev blank_text : Value → String
blank_text v = ""

abbrev unchanged : String → String
unchanged t = t

abbrev known_hosts : Map DeviceHost
known_hosts = ("lamp", record { host = "10.0.0.3"; mac = some "c4:e7"; updated_at = "monday" }) ∷ []

abbrev home_config : MerossConfig
home_config = record { cloud = none; devices = none; hosts = known_hosts; network = none }

abbrev home_lookups : HostLookups
home_lookups = record {
  default_cidr = some "10.0.0.0/24";
  env_key = some "key";
  arp = λ swept target. none;
  scan = λ uuid cidr key target. some (record { host = "10.0.0.9"; mac = none });
}

abbrev lamp_body : Value
lamp_body = object (field "uuid" (text "lamp") end)

resolve_host-KeepsOrLeaves_example :
    KeepsOrLeaves
      (wanted_by blank_text unchanged home_lookups home_config lamp_body)
      "tuesday"
      true
      none
      "plug"
      home_config
      (resolve_host blank_text unchanged home_lookups "tuesday" lamp_body home_config home_config)
unfolding get
resolve_host-KeepsOrLeaves_example =
    resolve_host-KeepsOrLeaves blank_text unchanged home_lookups "tuesday" lamp_body home_config
      home_config true none "plug"

-- One worker and one address, which answers.
abbrev lamp_answer : Value
lamp_answer = object (
    field "payload"
      (object (
        field "all"
          (object (
            field "system" (object (field "hardware" (object (field "uuid" (text "lamp") end)) end))
              end))
          end))
      end)

abbrev lamp_there : String → Result Value
lamp_there ip = ok lamp_answer

abbrev one_ip : List String
one_ip = "10.0.0.9" ∷ []

abbrev at_noon : String → String
at_noon ip = "noon"

abbrev swept : Sweep
swept = record {
  left = [];
  ready = 0;
  busy = [];
  found = ("lamp", record { host = "10.0.0.9"; mac = none; updated_at = "noon" }) ∷ [];
}

sweep_run : SweepRun unchanged at_noon lamp_there (start_sweep 1 one_ip) 3 swept
unfolding start_sweep take_address finish_address entry_of extract_lan_uuid extract_lan_mac
    remove_one insert get coalesce trim
sweep_run =
    let s0 : Sweep = start_sweep 1 one_ip in
    let s1 : Sweep = take_address s0 in
    let s2 : Sweep = finish_address unchanged at_noon "10.0.0.9" (lamp_there "10.0.0.9") s1 in
    then_step (then_step (then_step begun (takes s0 (ground arith))) (finishes s1 "10.0.0.9" refl))
      (takes s2 (ground arith))

abbrev lamp_start : Start
lamp_start = record { cidr = "10.0.0.0/24"; key = "key"; sweep = start_sweep 1 one_ip }

discovery_finds_example :
    let (answer, after) = finish_discovery lamp_start swept home_config in
    Answers unchanged at_noon lamp_there "lamp" one_ip (lookup "lamp" answer.hosts)
    × (lookup "lamp" after.hosts ≡ or_else (lookup "lamp" answer.hosts) (lookup "lamp" known_hosts))
    × (after ≡ record home_config { hosts = after.hosts })
discovery_finds_example =
    discovery_finds unchanged at_noon lamp_there 1 one_ip lamp_start home_config "lamp"
      (ground arith) sweep_run (refl, refl)

-- Two devices, of which one has a host.
abbrev two_devices : Items
two_devices =
    cons (object (field "uuid" (text "plug") (field "devName" (text "b") end)))
      (cons (object (field "uuid" (text "lamp") (field "devName" (text "a") end))) nil)

abbrev any_way : String → String → Bool
any_way a b = true

group_devices_for_control-split_example :
    let groups = group_devices_for_control unchanged any_way blank_text two_devices known_hosts in
    Perm (groups.ready ++ groups.inaccessible) (listed blank_text known_hosts two_devices)
    × All (IsReady (lan_config true none home_config)) groups.ready
    × All (IsInaccessible (lan_config true none home_config)) groups.inaccessible
    × IsSorted (device_le unchanged any_way) groups.ready
    × IsSorted (device_le unchanged any_way) groups.inaccessible
group_devices_for_control-split_example =
    group_devices_for_control-split blank_text true none home_config unchanged any_way
      (λ x y. inl refl) (λ x y z p q. refl) two_devices
