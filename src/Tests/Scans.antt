-- ===== src/Tests/Scans.antt =====
-- A scan of two addresses by one worker; the second address is the device.
use merossity.Prelude.{◌≤◌, String}
use merossity.Prelude.{◌≡◌, refl, ◌⊎◌}
use merossity.Prelude.{none, some, List, [], ◌∷◌, arith}
use merossity.Prelude.{str_eq, if◌then◌else◌}
use merossity.Prelude.Results.{Result, ok, err}
use merossity.Prelude.Texts.{trim}
use merossity.Json.{Value, text, object, field, end, get, coalesce}
use merossity.Poller.PollNow.{remove_one}
use merossity.Lan.Mac.{normalize_mac}
use merossity.Lan.Scan.{
  Target, Scan, start_scan, take_ip, finish_ip, match_host, extract_lan_uuid, extract_lan_mac,
}
use merossity.Lan.Scan.Search.{
  ScanRun, ScanStep, begun, then_step, takes, finishes, IsOver, Finds, start_scan-Finds, scan_ends,
}

abbrev as_it_is : String → String
as_it_is t = t

mac-compact : normalize_mac as_it_is " c4e7ae1ac474 " ≡ some "c4:e7:ae:1a:c4:74"
unfolding normalize_mac trim
mac-compact = refl

mac-dashes : normalize_mac as_it_is "c4-e7-ae-1a-c4-74" ≡ some "c4:e7:ae:1a:c4:74"
unfolding normalize_mac trim
mac-dashes = refl

abbrev plug_answer : Value
plug_answer = object (
    field "payload"
      (object (
        field "all"
          (object (
            field "system" (object (field "hardware" (object (field "uuid" (text "plug") end)) end))
              end))
          end))
      end)

abbrev answers : String → Result Value
answers ip = if str_eq ip "10.0.0.2" then ok plug_answer else err "timeout"

abbrev plug_target : Target
plug_target = record { uuid = "plug"; mac = none }

abbrev two_ips : List String
two_ips = "10.0.0.1" ∷ "10.0.0.2" ∷ []

abbrev scan_end : Scan
scan_end = record {
  left = [];
  ready = 0;
  busy = [];
  found = some (record { host = "10.0.0.2"; mac = none });
}

scan_run : ScanRun as_it_is plug_target answers (start_scan 1 two_ips) 4 scan_end
unfolding start_scan take_ip finish_ip match_host extract_lan_uuid extract_lan_mac remove_one get
    coalesce trim
scan_run =
    then_step
      (then_step (then_step (then_step begun (takes _ (omega arith))) (finishes _ "10.0.0.1" refl))
        (takes _ (omega arith)))
      (finishes _ "10.0.0.2" refl)

scan_end-IsOver : IsOver as_it_is plug_target answers scan_end
scan_end-IsOver = (refl, refl)

start_scan-Finds_example : Finds as_it_is plug_target answers two_ips scan_end.found
start_scan-Finds_example =
    start_scan-Finds as_it_is plug_target answers 1 two_ips scan_run scan_end-IsOver

scan_ends_example :
    (4 ≤ 7)
    × (IsOver as_it_is plug_target answers scan_end
        ⊎ ((q : Scan) × ScanStep as_it_is plug_target answers scan_end q))
scan_ends_example = scan_ends as_it_is plug_target answers 1 two_ips scan_run
