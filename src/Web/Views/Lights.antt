-- ===== src/Web/Views/Lights.antt =====
-- apps/web/src/views/devices/SmartLightControls.tsx: the controls of a light, the values that they
-- are drawn with, and the requests that they send. A colour of the wheel is its number; a value is an
-- integer multiple of 2^-1074, as in Json.
pub mod Sent
pub mod Drafts
pub mod Dragged
use merossity.Prelude.{ℕ, zero, suc, ◌+◌, ◌-◌, ◌*◌, ◌/◌, ◌%◌, ◌^◌, ◌≤◌, ◌<◌, min, max, String}
use merossity.Prelude.{◌≡◌, refl, sym, ap, ◌∙◌, ◌≢◌, ◌↔◌, ◌⊎◌, inl, inr, Bool, true, false, not}
use merossity.Prelude.{
  ◌&&◌, ◌||◌, Option, none, some, List, [], ◌∷◌, ◌++◌, map, arith, eq_iff, eq_refl,
}
use merossity.Prelude.{ltb, leb, ◌==◌, str_eq, if◌then◌else◌, ltb→lt, lt→ltb, leb→le, ==_iff, tests}
use merossity.Prelude.{
  Bool-cases, Option-cases, is_some, get_or, or_else, map_option, length, get_elem?,
}
use merossity.Prelude.{take, drop, find, any, all, keep, All, All-append, All-take, All-keep}
use merossity.Prelude.Integers.{ℤ, pos, negsuc}
use merossity.Json.{Value, text, number, finite, object, Fields, field, end, round, unit}
use merossity.Poller.Types.{LanLightState}
use merossity.Web.Devices.Types.{DeviceState}

-- `clamp(n, 0, hi)`, for a whole number `hi`.
unfoldable pub clamp : (n : ℤ) (hi : ℕ) → ℕ
clamp (pos z) hi = min (hi * unit) z
clamp (negsuc n) hi = 0

-- `clamp(Math.round(n), 0, hi)`, a whole number.
unfoldable pub clamp_round : (n : ℤ) (hi : ℕ) → ℕ
clamp_round n hi = clamp (round n) hi / unit

-- The light of the controls: the one that is shown, or the one on channel 0, or the first.
unfoldable pub controls_light : Option DeviceState → Option LanLightState
controls_light none = none
controls_light (some s) =
    or_else s.light
      (or_else (find (λ l. l.channel == 0) (get_or s.lights [])) (get_elem? (get_or s.lights []) 0))

-- The device's value of a field, in range, or a value that stands in for it.
abbrev shown_value : (read : LanLightState → Option ℤ) → Option LanLightState → (hi other : ℕ) → ℕ
shown_value read none hi other = other * unit
shown_value read (some l) hi other = elim (read l) [ none ↦ other * unit | some n ↦ clamp n hi ]

unfoldable pub device_lum : Option LanLightState → ℕ
device_lum l = shown_value (λ s. s.luminance) l 100 50

unfoldable pub device_temp : Option LanLightState → ℕ
device_temp l = shown_value (λ s. s.temperature) l 100 50

unfoldable pub device_rgb : Option LanLightState → ℕ
device_rgb l = shown_value (λ s. s.rgb) l 16777215 16738816

-- What an adjustment changes.
pub record Patch : Type 0 where
  pub luminance : Option ℤ
  pub temperature : Option ℤ
  pub rgb : Option ℤ

abbrev pub whole : ℕ → Value
whole n = number (finite (pos (n * unit)))

-- A field that is left out where it is not set.
abbrev pub optional_field : String → Option ℤ → (hi : ℕ) → Fields → Fields
optional_field key none hi fields = fields
optional_field key (some n) hi fields = field key (whole (clamp_round n hi)) fields

-- The body of `sendLight`: any adjustment switches the light on.
unfoldable pub send_light_body : (uuid : String) → Patch → Value
send_light_body uuid patch = object (
    field "uuid" (text uuid) (
      field "channel" (whole 0) (
        field "onoff" (whole 1) (
          optional_field "luminance" patch.luminance 100 (
            optional_field "temperature" patch.temperature 100
              (optional_field "rgb" patch.rgb 16777215 end))))))
