-- ===== src/Tests/Responses.antt =====
-- A response of a lamp, read by the extractors of packages/core/src/api/shared.ts.
use merossity.Prelude.{ℕ, String}
use merossity.Prelude.{◌≡◌, refl, Bool, true, false}
use merossity.Prelude.{none, some, [], ◌∷◌}
use merossity.Prelude.Results.{ok}
use merossity.Json.{
  Number, nan, Value, array, object, cons, nil, field, end, get, coalesce, is_truthy, natural_of,
}
use merossity.Poller.Types.{LanLightState, DeviceStateDto, light, poller}
use merossity.Poller.Reading.{Answers, read_state, primary_of, normalize_channels, require_lan_key}
use merossity.Poller.Digest.{
  items_of, read_items, first_read, to_number, coerce_finite_number, coerce_rgb, togglex_entry,
  extract_lan_toggle_x, light_entry, extract_lan_light, extract_lan_schedule_digest,
}
use merossity.Prelude.Sorting.{sort}
use merossity.Poller.Digest.Least.{system_all_of, ShowsLeast, read_state-ShowsLeast}
use merossity.Poller.Digest.Colours.{natural}

abbrev no_number : Value → Number
no_number v = nan

abbrev no_text : Value → String
no_text v = ""

abbrev any_order : String → String → Bool
any_order a b = true

abbrev in_digest : String → Value → Value
in_digest key v = object (
    field "payload"
      (object (field "all" (object (field "digest" (object (field key v end)) end)) end)) end)

abbrev entry : ℕ → Value
entry n = object (field "channel" (natural n) (field "onoff" (natural 1) end))

abbrev lamp_response : Value
lamp_response = in_digest "light" (array (cons (entry 2) (cons (entry 1) nil)))

abbrev plug_response : Value
plug_response = in_digest "togglex" (entry 0)

abbrev lamp_light : ℕ → LanLightState
lamp_light n = record {
  channel = n;
  onoff = true;
  luminance = none;
  temperature = none;
  rgb = none;
}

lamp_response-lights :
    extract_lan_light no_number lamp_response ≡ some (lamp_light 1 ∷ lamp_light 2 ∷ [])
unfolding extract_lan_light first_read read_items items_of light_entry to_number natural_of
    coerce_finite_number coerce_rgb get coalesce is_truthy sort
lamp_response-lights = refl

plug_response-channels :
    extract_lan_toggle_x no_number plug_response ≡ some (record { channel = 0; onoff = true } ∷ [])
unfolding extract_lan_toggle_x first_read read_items items_of togglex_entry to_number natural_of get
    is_truthy sort
plug_response-channels = refl

abbrev lamp_answers : Answers
lamp_answers = record {
  host_entry = some "10.0.0.7";
  cloud_key = some "key";
  env_key = none;
  system_all = ok (system_all_of no_number no_text any_order lamp_response);
}

abbrev lamp_reading : DeviceStateDto
lamp_reading = record {
  uuid = "lamp";
  host = "10.0.0.7";
  kind = light;
  channel = 1;
  onoff = true;
  channels = [];
  lights = lamp_light 1 ∷ lamp_light 2 ∷ [];
  light = some (lamp_light 1);
  timerx_digest = [];
  triggerx_digest = [];
  updated_at = 0;
  source = poller;
  stale = false;
  error = none;
}

lamp-read : read_state "lamp" poller lamp_answers ≡ ok lamp_reading
unfolding read_state require_lan_key primary_of normalize_channels extract_lan_toggle_x
    extract_lan_schedule_digest extract_lan_light first_read read_items items_of light_entry
    to_number natural_of coerce_finite_number coerce_rgb get coalesce is_truthy sort
lamp-read = refl

read_state-ShowsLeast_example : ShowsLeast lamp_reading
read_state-ShowsLeast_example =
    read_state-ShowsLeast no_number no_text any_order "lamp" poller lamp_answers lamp_response refl
      lamp-read
