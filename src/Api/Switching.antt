-- ===== src/Api/Switching.antt =====
-- The handlers of packages/core/src/api that switch a device or replace a rule: toggle-device.ts,
-- set-device-light.ts, set-device-timerx.ts and set-device-triggerx.ts. JavaScript gives the upper
-- case of a text (`upper_case`).
pub mod Fallback
pub mod Ranges
use merossity.Prelude.{ℕ, ◌/◌, min, max, String}
use merossity.Prelude.{Bool, true, false, not}
use merossity.Prelude.{◌&&◌, ◌||◌, Option, none, some}
use merossity.Prelude.{str_eq, if◌then◌else◌}
use merossity.Prelude.{is_some}
use merossity.Prelude.Integers.{ℤ, pos, negsuc}
use merossity.Prelude.Results.{ok, err}
use merossity.Prelude.Texts.{trim, starts_with, includes}
use merossity.Json.{
  Number, Value, undefined, Items, nil, cons, object, get, fields_of, round, unit, natural_of,
}
use merossity.Poller.Digest.{to_number, is_one, coerce_finite_number}
use merossity.Api.Client.{
  Action, request, Request, set_toggle_x, set_light, set_timer_x, set_trigger_x, LightFields,
  LanConfig, Network, Handler,
}
use merossity.Api.Client.{
  Reply, done, refused, ◌>>=◌, ◌>>◌, reply, answer, attempt, send, lan_access, refuse_if,
  poll_after, to_text, is_undefined,
}

-- The bodies of the answers.
pub record Toggled : Type 0 where
  pub host : String
  pub channel : ℕ
  pub onoff : Bool
  pub resp : Value

pub record LightSet : Type 0 where
  pub host : String
  pub channel : ℕ
  pub resp : Value

pub record RuleSet : Type 0 where
  pub host : String
  pub id : String
  pub resp : Value

-- A request, and another one where it fails.
unfoldable pub try_both : Network → (first second : Action) → Handler Value
try_both net first second =
    attempt net first >>= λ r. elim r [ ok resp ↦ reply resp | err message ↦ send net second ]

unfoldable pub clamp_int : (n : Option ℤ) (lo hi : ℕ) → Option ℕ
clamp_int none lo hi = none
clamp_int (some n) lo hi = elim (round n) [
  | pos z ↦ some (max lo (min hi (z / unit)))
  | negsuc z ↦ some lo
]

abbrev pub misses_all : LightFields → Bool
misses_all f =
    not (is_some f.onoff)
    && not (is_some f.luminance)
    && not (is_some f.temperature)
    && not (is_some f.rgb)

module _ (parse_number : Value → Number) (print_value : Value → String) where
  -- The cloud's entry of a device, in `devices.list` of the configuration.
  find_device : (uuid : String) → Items → Value
  find_device uuid nil = undefined
  find_device uuid (cons d devices) =
      let rest = find_device uuid devices in
      if str_eq (to_text print_value (get "uuid" d)) uuid then d else rest

  unfoldable pub prefers_light :
      (upper_case : String → String) (devices : Items) (uuid : String) → Bool
  unfolding find_device
  prefers_light upper_case devices uuid =
      let model =
        upper_case (trim (to_text print_value (get "deviceType" (find_device uuid devices)))) in
      starts_with model "MSL" || includes model "LIGHT"

  abbrev pub bit_of : Value → Bool
  bit_of v = is_one (to_number parse_number v)

  -- A missing channel is 0.
  abbrev pub channel_of : Value → Reply ℕ
  channel_of v = elim (is_undefined v) [
    | true ↦ done 0
    | false ↦ elim (natural_of (to_number parse_number v)) [
      | none ↦ refused "invalid_channel" "Invalid channel"
      | some n ↦ done n
    ]
  ]

  abbrev pub clamped : (v : Value) (hi : ℕ) (code message : String) → Reply (Option ℕ)
  clamped v hi code message = elim (is_undefined v) [
    | true ↦ done none
    | false ↦ elim (clamp_int (coerce_finite_number parse_number v) 0 hi) [
      | none ↦ refused code message
      | some n ↦ done (some n)
    ]
  ]

  abbrev pub given_bit : Value → Option Bool
  given_bit v = if is_undefined v then none else some (bit_of v)

  module _ (cfg : LanConfig) (net : Network) where
    -- The requests, in the order in which they are tried.
    abbrev pub toggle_requests :
        (light : Bool) (host key : String) (channel : ℕ) (onoff : Bool) → Action × Action
    toggle_requests light host key channel onoff =
        let as_light = request host key (
          set_light (record {
            channel = channel;
            onoff = some onoff;
            luminance = none;
            temperature = none;
            rgb = none;
          })) in
        let as_toggle = request host key (set_toggle_x channel onoff) in
        if light then (as_light, as_toggle) else (as_toggle, as_light)

    unfoldable pub toggle_device :
        (upper_case : String → String) (devices : Items) (body : Value) → Handler Toggled
    toggle_device upper_case devices body = do
      let uuid = to_text print_value (get "uuid" body)
      let onoff = bit_of (get "onoff" body)
      refuse_if (str_eq uuid "") "missing_uuid" "Missing uuid"
      channel ← answer (channel_of (get "channel" body))
      (host, key) ← lan_access cfg uuid
      let tries = toggle_requests (prefers_light upper_case devices uuid) host key channel onoff
      resp ← try_both net (tries.0) (tries.1)
      poll_after cfg uuid
      reply (record { host = host; channel = channel; onoff = onoff; resp = resp })

    -- The `try` block.
    unfoldable pub apply_light : (uuid : String) → LightFields → Handler LightSet
    apply_light uuid fields = do
      (host, key) ← lan_access cfg uuid
      resp ← send net (request host key (set_light fields))
      poll_after cfg uuid
      reply (record { host = host; channel = fields.channel; resp = resp })

    unfoldable pub set_device_light : (body : Value) → Handler LightSet
    set_device_light body = do
      let uuid = to_text print_value (get "uuid" body)
      refuse_if (str_eq uuid "") "missing_uuid" "Missing uuid"
      channel ← answer (channel_of (get "channel" body))
      luminance ←
          answer (clamped (get "luminance" body) 100 "invalid_luminance" "Invalid luminance")
      temperature ←
          answer (clamped (get "temperature" body) 100 "invalid_temperature" "Invalid temperature")
      rgb ← answer (clamped (get "rgb" body) 16777215 "invalid_rgb" "Invalid rgb")
      let fields : LightFields = record {
        channel = channel;
        onoff = given_bit (get "onoff" body);
        luminance = luminance;
        temperature = temperature;
        rgb = rgb;
      }
      refuse_if (misses_all fields) "missing_fields" "No light fields provided"
      apply_light uuid fields

    -- A rule that the client gives whole, under `name` in the body.
    abbrev set_rule :
        (set : Value → Request) (name missing missing_id missing_text missing_id_text : String)
        (body : Value)
        → Handler RuleSet
    set_rule set name missing missing_id missing_text missing_id_text body = do
      let uuid = to_text print_value (get "uuid" body)
      let rule = fields_of (get name body)
      let id = trim (to_text print_value (get "id" (get name body)))
      refuse_if (str_eq uuid "") "missing_uuid" "Missing uuid"
      fields ←
          answer (elim rule [ none ↦ refused missing missing_text | some fields ↦ done fields ])
      refuse_if (str_eq id "") missing_id missing_id_text
      (host, key) ← lan_access cfg uuid
      resp ← send net (request host key (set (object fields)))
      poll_after cfg uuid
      reply (record { host = host; id = id; resp = resp })

    unfoldable pub set_device_timer_x : (body : Value) → Handler RuleSet
    set_device_timer_x body =
        set_rule set_timer_x "timer" "missing_timer" "missing_id" "Missing timer" "Missing timer.id"
          body

    unfoldable pub set_device_trigger_x : (body : Value) → Handler RuleSet
    set_device_trigger_x body =
        set_rule set_trigger_x "trigger" "missing_trigger" "missing_id" "Missing trigger"
          "Missing trigger.id" body
