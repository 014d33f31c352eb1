-- ===== src/Tests/Readings.antt =====
-- Reading the state and the timers of a device.
use merossity.Prelude.{◌*◌, String}
use merossity.Prelude.{◌≡◌, refl, inl, Bool, true, false}
use merossity.Prelude.{none, some, List, [], ◌∷◌}
use merossity.Prelude.Integers.{pos}
use merossity.Prelude.Sorting.{sort}
use merossity.Prelude.Results.{ok}
use merossity.Prelude.Texts.{trim}
use merossity.Json.{
  Number, Value, nan, text, object, Fields, field, end, array, cons, nil, get, is_truthy,
  natural_of, round, unit,
}
use merossity.Poller.Types.{DeviceStateDto, togglex, manual}
use merossity.Poller.Digest.{
  to_number, items_of, read_items, digest_entry, extract_lan_schedule_digest, coerce_finite_number,
}
use merossity.Poller.Digest.Colours.{natural}
use merossity.Poller.PollNow.{unique}
use merossity.Poller.Reading.{require_lan_key}
use merossity.Api.Client.{
  Action, request, get_system_all, get_timer_x, LanConfig, Network, done, follow, send,
  or_lan_error, lan_access, require_lan_host, refuse_if,
}
use merossity.Api.Rules.{rule_of}
use merossity.Api.States.{PollNowResult, get_device_state}
use merossity.Api.States.Polled.{ask_poller, Alike, get_device_state-agrees}
use merossity.Poller.Service.{Service, new_service}
use merossity.Prelude.Maps.{lookup}
use merossity.Api.Schedules.{
  Timers, TimerXRead, digest_ids, ask_each, timer_rule_in, timer_of, timers_in, read_rules,
  get_device_timer_x, digest_in,
}
use merossity.Api.Schedules.Asked.{Reads, AreInOrder, get_device_timer_x-Reads}

abbrev no_parse : Value → Number
no_parse v = nan

abbrev no_print : Value → String
no_print v = ""

abbrev all_alike : String → String → Bool
all_alike a b = true

abbrev flat : LanConfig
flat = record {
  polls = false;
  host_of = λ uuid. some "10.0.0.5";
  cloud_key = some "key";
  env_key = none;
}

-- A plug that is on, with one timer.
abbrev plug_digest : Value
plug_digest = object (
    field "togglex"
      (array (cons (object (field "channel" (natural 0) (field "onoff" (natural 1) end))) nil))
      (field "timerx"
        (array (cons (object (field "channel" (natural 0) (field "id" (text "t1") end))) nil)) end))

abbrev plug_system : Value
plug_system =
    object
      (field "payload" (object (field "all" (object (field "digest" plug_digest end)) end)) end)

abbrev timer_rule : Fields
timer_rule = field "id" (text "t1") (field "time" (natural 420) end)

abbrev timer_answer : Value
timer_answer = object (field "payload" (object (field "timerx" (object timer_rule) end)) end)

abbrev plug_net : Network
plug_net log (request host key (get_timer_x id)) = ok timer_answer
plug_net log a = ok plug_system

abbrev plug_body : Value
plug_body = object (field "uuid" (text "p") end)

abbrev plug_state : DeviceStateDto
plug_state = record {
  uuid = "p";
  host = "10.0.0.5";
  kind = togglex;
  channel = 0;
  onoff = true;
  channels = record { channel = 0; onoff = true } ∷ [];
  lights = [];
  light = none;
  timerx_digest = record { channel = 0; id = "t1"; count = 0 } ∷ [];
  triggerx_digest = [];
  updated_at = 0;
  source = manual;
  stale = false;
  error = none;
}

-- A poller that has the plug as it is.
abbrev idle_poller : Service
idle_poller = record new_service { state_by_uuid = ("p", plug_state) ∷ [] }

abbrev ask_idle : String → PollNowResult
ask_idle = ask_poller no_parse no_print all_alike (λ t. t) flat plug_net [] idle_poller 4 5 0 6

get_device_state-agrees_example :
    let run = get_device_state no_parse no_print all_alike flat plug_net in
    Alike no_parse no_print all_alike
      (λ t. t)
      flat
      plug_net
      []
      idle_poller
      4
      5
      0
      6
      "p"
      ((run none plug_body []).0)
      ((run (some ask_idle) plug_body []).0)
unfolding get trim lookup
get_device_state-agrees_example =
    get_device_state-agrees no_parse no_print all_alike (λ t. t) flat plug_net [] idle_poller 4 5 0
      6 plug_body refl refl

abbrev first_timer : TimerXRead
first_timer = record {
  id = "t1";
  enable = none;
  channel = none;
  alias = none;
  type = none;
  week = none;
  time = some (round (pos (420 * unit)));
  sun_offset = none;
  duration = none;
  extend = none;
}

abbrev plug_timers : Timers
plug_timers = record {
  host = "10.0.0.5";
  digest = record { channel = 0; id = "t1"; count = 0 } ∷ [];
  timers = first_timer ∷ [];
  raw_by_id = ("t1", timer_answer) ∷ [];
}

abbrev after_timers : List Action
after_timers =
    request "10.0.0.5" "key" get_system_all ∷ request "10.0.0.5" "key" (get_timer_x "t1") ∷ []

timers-read :
    get_device_timer_x no_parse no_print all_alike flat plug_net plug_body []
    ≡ (done plug_timers, after_timers)
unfolding get_device_timer_x read_rules ask_each digest_ids unique timers_in timer_rule_in timer_of
    rule_of refuse_if follow send or_lan_error lan_access require_lan_host require_lan_key
    extract_lan_schedule_digest read_items items_of digest_entry get is_truthy natural_of to_number
    coerce_finite_number trim sort
timers-read = refl

get_device_timer_x-Reads_example :
    Reads flat plug_net
      (digest_in no_parse no_print all_alike "timerx")
      get_timer_x
      "p"
      []
      after_timers
      plug_timers.host
      plug_timers.digest
      plug_timers.raw_by_id
    × AreInOrder no_parse no_print all_alike flat plug_net plug_timers
unfolding get
get_device_timer_x-Reads_example =
    get_device_timer_x-Reads no_parse no_print all_alike flat plug_net (λ x y. inl refl)
      (λ x y z p q. refl) plug_body [] after_timers timers-read
