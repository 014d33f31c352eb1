-- ===== src/Tests/Streams.antt =====
-- A state on its way from the poller to the application.
use merossity.Prelude.{ℕ, ◌*◌, String}
use merossity.Prelude.{◌≡◌, refl, Bool, true, false}
use merossity.Prelude.{none, some, [], ◌∷◌, arith}
use merossity.Prelude.Integers.{pos}
use merossity.Prelude.Texts.{trim}
use merossity.Json.{Number, nan, Value, unit}
use merossity.Poller.Types.{LanLightState, LanScheduleDigestEntry, DeviceStateDto, light, poller}
use merossity.Web.Devices.Parsers.{parse_stream_state}
use merossity.Web.Devices.Parsers.RoundTrip.{
  IsSendable, wire_state, seen_state, parse_stream_state-wire_state,
}

abbrev nothing : Value → Number
nothing v = nan

abbrev blank : Value → String
blank v = ""

abbrev in_order : String → String → Bool
in_order a b = true

abbrev lamp_at : ℕ → LanLightState
lamp_at n = record {
  channel = n;
  onoff = true;
  luminance = some (pos (50 * unit));
  temperature = none;
  rgb = none;
}

abbrev evening : LanScheduleDigestEntry
evening = record { channel = 0; id = "t1"; count = 2 }

abbrev sent_lamp : DeviceStateDto
sent_lamp = record {
  uuid = "lamp";
  host = "10.0.0.7";
  kind = light;
  channel = 1;
  onoff = true;
  channels = [];
  lights = lamp_at 1 ∷ lamp_at 2 ∷ [];
  light = some (lamp_at 1);
  timerx_digest = evening ∷ [];
  triggerx_digest = [];
  updated_at = 1000;
  source = poller;
  stale = false;
  error = some "timeout";
}

sent_lamp-IsSendable : IsSendable nothing blank in_order sent_lamp
unfolding trim
sent_lamp-IsSendable = record {
  id = (refl, λ e. cc);
  timed = omega arith;
  channels = tt;
  lights = ((refl, tt), (tt, tt));
  timers = (tt, tt);
  triggers = tt;
  timer_ids = ((refl, λ e. cc), tt);
  trigger_ids = tt;
}

parse_stream_state-wire_state_example :
    parse_stream_state nothing blank in_order (wire_state nothing blank in_order sent_lamp)
    ≡ some (seen_state nothing blank in_order sent_lamp)
parse_stream_state-wire_state_example =
    parse_stream_state-wire_state nothing blank in_order sent_lamp sent_lamp-IsSendable
