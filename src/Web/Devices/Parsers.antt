-- ===== src/Web/Devices/Parsers.antt =====
-- The parsers of apps/web/src/state/devicesMachine.ts for what the server's stream sends.
-- JavaScript gives the number and the text of a value (`parse_number`, `print_value`) and the order
-- of two texts (`locale_le`). A value that is no object has no keys, which comes to the same as the
-- source's `null` in its place.
pub mod RoundTrip
use merossity.Prelude.{ℕ, ◌+◌, ◌/◌, String}
use merossity.Prelude.{Bool}
use merossity.Prelude.{◌&&◌, ◌||◌, Option, none, some, List, []}
use merossity.Prelude.{ltb, leb, ◌==◌, str_eq, if◌then◌else◌}
use merossity.Prelude.{map_option}
use merossity.Prelude.Integers.{ℤ, pos}
use merossity.Prelude.Sorting.{sort}
use merossity.Prelude.Texts.{trim}
use merossity.Json.{Number, finite, Value, text, array, get, is_truthy, natural_of, unit}
use merossity.Api.Client.{to_text}
use merossity.Poller.Types.{LanToggleXChannel, LanLightState, LanScheduleDigestEntry}
use merossity.Poller.Digest.{to_number, is_one, read_items}
use merossity.Web.Devices.Types.{StreamDeviceState, DevicePower}

abbrev pub finite_of : Number → Option ℤ
finite_of (finite z) = some z
finite_of _ = none

-- `Math.max(0, Math.round(count))`, or 0 where it is not finite.
abbrev pub whole_count : Option ℤ → ℕ
whole_count (some (pos z)) = (z + unit / 2) / unit
whole_count _ = 0

abbrev pub text_of : Value → Option String
text_of v = elim v [ text t ↦ some t | _ ↦ none ]

-- A finite time after 1970.
abbrev pub positive : Option ℤ → Option ℕ
positive (some (pos z)) = if ltb 0 z then some z else none
positive _ = none

abbrev pub channel_order : LanToggleXChannel → LanToggleXChannel → Bool
channel_order a b = leb a.channel b.channel

abbrev pub light_order : LanLightState → LanLightState → Bool
light_order a b = leb a.channel b.channel

-- The entries of a list, in order.
abbrev pub parse_list : {A : Type 0} → (Value → Option A) → (A → A → Bool) → Value → List A
parse_list read le (array items) = sort le (read_items read items)
parse_list read le _ = []

module _ (parse_number : Value → Number) where
  abbrev pub number_at : String → Value → Number
  number_at key v = to_number parse_number (get key v)

  unfoldable pub parse_channel : Value → Option LanToggleXChannel
  parse_channel v =
      map_option (λ n. record { channel = n; onoff = is_one (number_at "onoff" v) })
        (natural_of (number_at "channel" v))

  unfoldable pub parse_channels : Value → List LanToggleXChannel
  parse_channels v = parse_list parse_channel channel_order v

  unfoldable pub parse_light : Value → Option LanLightState
  parse_light v =
      map_option
        (λ n. record {
          channel = n;
          onoff = is_one (number_at "onoff" v);
          luminance = finite_of (number_at "luminance" v);
          temperature = finite_of (number_at "temperature" v);
          rgb = finite_of (number_at "rgb" v);
        })
        (natural_of (number_at "channel" v))

  unfoldable pub parse_lights : Value → List LanLightState
  parse_lights v = parse_list parse_light light_order v

  module _ (print_value : Value → String) (locale_le : String → String → Bool) where
    abbrev pub digest_order : LanScheduleDigestEntry → LanScheduleDigestEntry → Bool
    digest_order a b = ltb a.channel b.channel || (a.channel == b.channel && locale_le a.id b.id)

    unfoldable pub parse_digest_entry : Value → Option LanScheduleDigestEntry
    parse_digest_entry v =
        let id = trim (to_text print_value (get "id" v)) in
        let count = whole_count (finite_of (number_at "count" v)) in
        if str_eq id ""
        then none
        else map_option (λ n. record { channel = n; id = id; count = count })
            (natural_of (number_at "channel" v))

    unfoldable pub parse_schedule_digest : Value → List LanScheduleDigestEntry
    parse_schedule_digest v = parse_list parse_digest_entry digest_order v

    unfoldable pub parse_stream_state : Value → Option StreamDeviceState
    parse_stream_state v =
        let uuid = trim (to_text print_value (get "uuid" v)) in
        if str_eq uuid "" then none else elim (natural_of (number_at "channel" v)) [
          | none ↦ none
          | some channel ↦ elim (positive (finite_of (number_at "updatedAt" v))) [
            | none ↦ none
            | some updated_at ↦ some (record {
              uuid = uuid;
              host = to_text print_value (get "host" v);
              kind = text_of (get "kind" v);
              channel = channel;
              onoff = is_one (number_at "onoff" v);
              channels = some (parse_channels (get "channels" v));
              lights = some (parse_lights (get "lights" v));
              light = parse_light (get "light" v);
              timerx_digest = some (parse_schedule_digest (get "timerxDigest" v));
              triggerx_digest = some (parse_schedule_digest (get "triggerxDigest" v));
              updated_at = pos updated_at;
              stale = is_truthy (get "stale" v);
              source = text_of (get "source" v);
              error = text_of (get "error" v);
            })
          ]
        ]

    -- The entries of a list under a key that can be read, in the order in which they come.
    abbrev parse_all : {A : Type 0} → (Value → Option A) → Value → List A
    parse_all read (array items) = read_items read items
    parse_all read _ = []

    unfoldable pub parse_snapshot_states : Value → List StreamDeviceState
    parse_snapshot_states v = parse_all parse_stream_state (get "states" v)

    unfoldable pub parse_power : Value → Option DevicePower
    parse_power v =
        let uuid = trim (to_text print_value (get "uuid" v)) in
        if str_eq uuid "" then none else elim (natural_of (number_at "channel" v)) [
          | none ↦ none
          | some channel ↦ elim (positive (finite_of (number_at "updatedAt" v))) [
            | none ↦ none
            | some updated_at ↦ some (record {
              uuid = uuid;
              host = to_text print_value (get "host" v);
              channel = channel;
              voltage_v = finite_of (number_at "voltageV" v);
              current_a = finite_of (number_at "currentA" v);
              power_w = finite_of (number_at "powerW" v);
              updated_at = pos updated_at;
              stale = is_truthy (get "stale" v);
              error = text_of (get "error" v);
            })
          ]
        ]

    unfoldable pub parse_power_snapshot : Value → List DevicePower
    parse_power_snapshot v = parse_all parse_power (get "readings" v)
