-- ===== src/Api/Timers/Patch.antt =====
-- packages/core/src/api/patch-device-timerx.ts: the patch of a rule, field by field in the order of
-- the handler. The first field that is not valid ends it.
pub mod Meaning
use merossity.Prelude.{String}
use merossity.Prelude.{Bool, not}
use merossity.Prelude.{◌&&◌, Option, none, some}
use merossity.Prelude.{if◌then◌else◌}
use merossity.Prelude.{map_option}
use merossity.Json.{Number, Value, number, finite, text, object, Fields, get, put, fields_of, round}
use merossity.Prelude.Integers.{ℤ, pos, negsuc}
use merossity.Poller.Digest.{to_number, is_one, coerce_finite_number}
use merossity.Poller.Digest.Colours.{natural}
use merossity.Api.Client.{Reply, done, refused, to_text, is_undefined}

-- A `patch` that is not an object stands for an empty one: it has no key.
abbrev pub wants_none : Value → Bool
wants_none patch =
    is_undefined (get "enable" patch)
    && is_undefined (get "toggleOnoff" patch)
    && is_undefined (get "alias" patch)
    && is_undefined (get "channel" patch)
    && is_undefined (get "type" patch)
    && is_undefined (get "week" patch)
    && is_undefined (get "time" patch)
    && is_undefined (get "sunOffset" patch)
    && is_undefined (get "duration" patch)

-- `x === undefined ? rule : change(rule)`
abbrev when_wanted : Value → Fields → (Value → Reply Fields) → Reply Fields
when_wanted v rule change = if is_undefined v then done rule else change v

infixl 5 ◌>>=◌
abbrev pub ◌>>=◌ : {A B : Type 0} → Reply A → (A → Reply B) → Reply B
refused code message >>= next = refused code message
done a >>= next = next a

abbrev bit : Bool → Value
bit b = natural (if b then 1 else 0)

module _ (parse_number : Value → Number) (print_value : Value → String) where
  abbrev pub as_finite_int : Value → Option ℤ
  as_finite_int v = map_option round (coerce_finite_number parse_number v)

  abbrev pub coerced_bit : Value → Value
  coerced_bit v = bit (is_one (to_number parse_number v))

  pub set_enable : Value → Fields → Reply Fields
  set_enable patch rule =
      when_wanted (get "enable" patch) rule (λ v. done (put "enable" (coerced_bit v) rule))

  pub set_alias : Value → Fields → Reply Fields
  set_alias patch rule =
      when_wanted (get "alias" patch) rule
        (λ v. done (put "alias" (text (to_text print_value v)) rule))

  pub set_channel : Value → Fields → Reply Fields
  set_channel patch rule = when_wanted (get "channel" patch) rule (λ v. elim (as_finite_int v) [
    | none ↦ refused "invalid_channel" "Invalid channel"
    | some n ↦ elim n [
      | pos z ↦ done (put "channel" (number (finite (pos z))) rule)
      | negsuc z ↦ refused "invalid_channel" "Invalid channel"
    ]
  ])

  pub set_integer : (key code message : String) → Value → Fields → Reply Fields
  set_integer key code message patch rule = when_wanted (get key patch) rule (λ v.
      elim (as_finite_int v) [
        | none ↦ refused code message
        | some n ↦ done (put key (number (finite n)) rule)
      ])

  pub set_toggle : Value → Fields → Reply Fields
  set_toggle patch rule = when_wanted (get "toggleOnoff" patch) rule (λ v.
      let unsupported : Reply Fields =
        refused "unsupported_action" "TimerX rule does not support extend.toggle.onoff" in
      elim (fields_of (get "extend" (object rule))) [
        | none ↦ unsupported
        | some extend ↦ elim (fields_of (get "toggle" (object extend))) [
          | none ↦ unsupported
          | some toggle ↦
              if is_undefined (get "onoff" (object toggle))
              then unsupported
              else done (
                  put "extend"
                    (object (put "toggle" (object (put "onoff" (coerced_bit v) toggle)) extend))
                    rule)
        ]
      ])

  unfoldable pub patched_rule : (patch : Value) → Fields → Reply Fields
  unfolding set_enable set_alias set_channel set_integer set_toggle
  patched_rule patch rule =
      set_enable patch rule
      >>= set_alias patch
      >>= set_channel patch
      >>= set_integer "type" "invalid_type" "Invalid type" patch
      >>= set_integer "week" "invalid_week" "Invalid week" patch
      >>= set_integer "time" "invalid_time" "Invalid time" patch
      >>= set_integer "sunOffset" "invalid_sunoffset" "Invalid sunOffset" patch
      >>= set_integer "duration" "invalid_duration" "Invalid duration" patch
      >>= set_toggle patch
