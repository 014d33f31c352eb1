-- ===== src/Tests/Handlers.antt =====
-- The handlers of packages/core/src/api on a device that answers.
use merossity.Prelude.{◌-◌, ◌*◌, String}
use merossity.Prelude.{◌≡◌, refl, true, false}
use merossity.Prelude.{none, some, List, [], ◌∷◌, ◌++◌}
use merossity.Prelude.{◌==◌, if◌then◌else◌}
use merossity.Prelude.{length}
use merossity.Prelude.Integers.{pos, negsuc}
use merossity.Prelude.Results.{ok, err}
use merossity.Prelude.Texts.{trim, starts_with, includes}
use merossity.Json.{
  Number, Value, nan, number, finite, text, object, undefined, Fields, field, end, Items, nil, cons,
  get, put, round, unit, natural_of,
}
use merossity.Poller.Digest.{to_number, coerce_finite_number}
use merossity.Poller.Digest.Colours.{natural}
use merossity.Poller.Reading.{require_lan_key}
use merossity.Api.Client.{
  Action, request, poll_device, get_timer_x, set_timer_x, set_light, set_toggle_x, LightFields,
  LanConfig, Network, done, refused, follow, send, or_lan_error, lan_access, require_lan_host,
  refuse_if,
}
use merossity.Api.Rules.{rule_of}
use merossity.Api.Timers.{patch_device_timer_x, patch_timer_x, Patched}
use merossity.Api.Timers.Patch.{patched_rule}
use merossity.Api.Timers.Patch.Meaning.{patched_rule-get, meant}
use merossity.Api.Timers.Whole.{Asked, patch_device_timer_x-refused}
use merossity.Api.Removal.{Deletion}
use merossity.Api.Switching.{
  Toggled, LightSet, prefers_light, try_both, toggle_requests, bit_of, clamp_int, misses_all,
  given_bit, apply_light, toggle_device, set_device_light,
}
use merossity.Api.Switching.Fallback.{Tried, toggle_device-Tried}
use merossity.Api.Switching.Ranges.{InRange, LightWasSet, set_device_light-InRange}

abbrev no_number : Value → Number
no_number v = nan

abbrev no_text : Value → String
no_text v = ""

abbrev same_text : String → String
same_text t = t

abbrev lan : LanConfig
lan = record {
  polls = true;
  host_of = λ uuid. some "10.0.0.7";
  cloud_key = some "key";
  env_key = none;
}

-- A rule, and the answer of a device that holds it.
abbrev morning : Fields
morning = field "id" (text "t1") (field "enable" (natural 0) (field "time" (natural 420) end))

abbrev rule_answer : Value
rule_answer = object (field "payload" (object (field "timerx" (object morning) end)) end)

abbrev bulb : Network
bulb log a = ok rule_answer

abbrev plug : Network
plug log (request host key (set_light f)) = err "no light"
plug log a = ok rule_answer

abbrev new_time : Value
new_time = object (field "time" (natural 480) (field "enable" (natural 1) end))

abbrev changed : Fields
changed = field "id" (text "t1") (field "enable" (natural 1) (field "time" (natural 480) end))

changed-morning : patched_rule no_number no_text new_time morning ≡ done changed
unfolding patched_rule get put to_number coerce_finite_number round
changed-morning = refl

patched_rule-get_example :
    get "time" (object changed)
    ≡ meant no_number no_text new_time "time" (get "time" (object morning))
patched_rule-get_example =
    patched_rule-get no_number no_text new_time morning changed changed-morning "time" (λ e. cc)

abbrev patch_body : Value
patch_body =
    object (field "uuid" (text "u") (field "id" (text " t1 ") (field "patch" new_time end)))

abbrev patched_timer : Patched
patched_timer = record {
  host = "10.0.0.7";
  id = "t1";
  updated = record {
    id = "t1";
    enable = some true;
    channel = none;
    alias = none;
    type = none;
    week = none;
    time = some (finite (pos (480 * unit)));
    sun_offset = none;
    duration = none;
    extend = none;
  };
  resp = rule_answer;
}

abbrev after_patch : List Action
after_patch =
    request "10.0.0.7" "key" (get_timer_x "t1")
    ∷ request "10.0.0.7" "key" (set_timer_x (object changed))
    ∷ poll_device "u"
    ∷ []

-- A patch of a time that is no number.
abbrev bad_body : Value
bad_body = object (
    field "uuid" (text "u")
      (field "id" (text "t1") (field "patch" (object (field "time" (text "") end)) end)))

abbrev after_bad : List Action
after_bad = request "10.0.0.7" "key" (get_timer_x "t1") ∷ []

bad-refused :
    patch_device_timer_x no_number no_text lan bulb bad_body []
    ≡ (refused "invalid_time" "Invalid time", after_bad)
unfolding patch_device_timer_x patch_timer_x follow send or_lan_error lan_access require_lan_host
    require_lan_key refuse_if patched_rule get put to_number coerce_finite_number round rule_of trim
bad-refused = refl

patch_device_timer_x-refused_example : Asked no_number no_text lan bulb "t1" [] after_bad
unfolding get trim
patch_device_timer_x-refused_example =
    patch_device_timer_x-refused no_number no_text lan bulb bad_body [] after_bad bad-refused
      (λ e. cc)

-- A device that knows no `enable` of -1.
abbrev error_answer : Value
error_answer =
    object
      (field "payload" (object (field "error" (object (field "code" (natural 5000) end)) end)) end)

abbrev fussy : Network
fussy log a = if length log == 1 then ok error_answer else ok rule_answer

abbrev switched_off : Deletion
switched_off = record {
  host = "10.0.0.7";
  id = "t1";
  deleted = false;
  disabled = true;
  resp = rule_answer;
}

abbrev gone : Fields
gone =
    field "id" (text "t1")
      (field "enable" (number (finite (negsuc (unit - 1)))) (field "time" (natural 420) end))

abbrev off : Fields
off = field "id" (text "t1") (field "enable" (natural 0) (field "time" (natural 420) end))

abbrev after_deletion : List Action
after_deletion =
    request "10.0.0.7" "key" (get_timer_x "t1")
    ∷ request "10.0.0.7" "key" (set_timer_x (object gone))
    ∷ request "10.0.0.7" "key" (set_timer_x (object off))
    ∷ poll_device "u"
    ∷ []

-- A bulb by its model, which answers only to its toggle.
abbrev toggle_body : Value
toggle_body = object (field "uuid" (text "u") (field "onoff" (natural 1) end))

abbrev bulbs : Items
bulbs = cons (object (field "uuid" (text "u") (field "deviceType" (text "MSL120") end))) nil

abbrev toggled_bulb : Toggled
toggled_bulb = record { host = "10.0.0.7"; channel = 0; onoff = true; resp = rule_answer }

abbrev light_on : Action
light_on = request "10.0.0.7" "key" (
    set_light
      (record { channel = 0; onoff = some true; luminance = none; temperature = none; rgb = none }))

abbrev tried : List Action
tried = light_on ∷ request "10.0.0.7" "key" (set_toggle_x 0 true) ∷ []

bulb_toggles :
    toggle_device no_number no_text lan plug same_text bulbs toggle_body []
    ≡ (done toggled_bulb, tried ++ poll_device "u" ∷ [])
unfolding toggle_device prefers_light try_both follow send or_lan_error lan_access require_lan_host
    require_lan_key refuse_if get to_number natural_of trim starts_with includes
bulb_toggles = refl

toggle_device-Tried_example :
    (key : String) × (sent : List Action) × (let tries =
        toggle_requests no_number no_text lan plug
          (prefers_light no_number no_text same_text bulbs "u")
          "10.0.0.7"
          key
          0
          (bit_of no_number no_text (natural 1)) in
      Tried plug (tries.0) (tries.1) [] sent rule_answer)
    × (tried ++ poll_device "u" ∷ [] ≡ sent ++ poll_device "u" ∷ [])
unfolding get
toggle_device-Tried_example =
    toggle_device-Tried no_number no_text lan plug same_text bulbs toggle_body []
      (tried ++ poll_device "u" ∷ []) bulb_toggles

-- A light that is asked to be brighter than it can be.
abbrev light_body : Value
light_body = object (field "uuid" (text "u") (field "luminance" (natural 120) end))

abbrev bright : LightFields
bright = record { channel = 0; onoff = none; luminance = some 100; temperature = none; rgb = none }

abbrev light_set : LightSet
light_set = record { host = "10.0.0.7"; channel = 0; resp = rule_answer }

abbrev after_light : List Action
after_light = request "10.0.0.7" "key" (set_light bright) ∷ poll_device "u" ∷ []

light-set :
    set_device_light no_number no_text lan bulb light_body [] ≡ (done light_set, after_light)
unfolding set_device_light apply_light clamp_int follow send or_lan_error lan_access
    require_lan_host require_lan_key refuse_if get coerce_finite_number round natural_of
light-set = refl

set_device_light-InRange_example :
    (key : String) × (f : LightFields) × InRange f
    × (misses_all f ≡ false)
    × (f.onoff ≡ given_bit no_number no_text undefined)
    × LightWasSet no_number no_text lan bulb "u" key f [] after_light light_set
unfolding get
set_device_light-InRange_example =
    set_device_light-InRange no_number no_text lan bulb light_body [] after_light light-set
