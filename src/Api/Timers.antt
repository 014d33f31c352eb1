-- ===== src/Api/Timers.antt =====
-- The handlers of packages/core/src/api for the timers of a device that change them in place:
-- patch-device-timerx.ts. The rule that the device answers is changed and sent back whole.
pub mod Patch
pub mod Found
pub mod Whole
use merossity.Prelude.{String}
use merossity.Prelude.{Bool, not}
use merossity.Prelude.{Option, none, some}
use merossity.Prelude.{str_eq, if◌then◌else◌}
use merossity.Prelude.Texts.{trim}
use merossity.Json.{Number, Value, object, Fields, get}
use merossity.Poller.Digest.{to_number, is_one}
use merossity.Api.Client.{request, get_timer_x, set_timer_x, LanConfig, Network, Handler}
use merossity.Api.Client.{
  Reply, done, refused, ◌>>=◌, ◌>>◌, reply, answer, send, lan_access, refuse_if, poll_after,
  to_text, is_undefined,
}
use merossity.Api.Rules.{rule_of}
use merossity.Api.Timers.Patch.{patched_rule, wants_none}

pub record TimerXRule : Type 0 where
  pub id : String
  pub enable : Option Bool
  pub channel : Option Number
  pub alias : Option String
  pub type : Option Number
  pub week : Option Number
  pub time : Option Number
  pub sun_offset : Option Number
  pub duration : Option Number
  pub extend : Option Value

-- The body of the answer.
pub record Patched : Type 0 where
  pub host : String
  pub id : String
  pub updated : TimerXRule
  pub resp : Value

abbrev given : {A : Type 0} → (Value → A) → Value → Option A
given read v = if is_undefined v then none else some (read v)

abbrev pub rule_in : (kind code message : String) → Value → Reply Fields
rule_in kind code message resp = elim (rule_of kind (get kind (get "payload" resp))) [
  | none ↦ refused code message
  | some rule ↦ done rule
]

module _ (parse_number : Value → Number) (print_value : Value → String) where
  abbrev parse_timer_x_rule : Fields → TimerXRule
  parse_timer_x_rule rule = record {
    id = trim (to_text print_value (get "id" (object rule)));
    enable = given (λ v. is_one (to_number parse_number v)) (get "enable" (object rule));
    channel = given (to_number parse_number) (get "channel" (object rule));
    alias = given (to_text print_value) (get "alias" (object rule));
    type = given (to_number parse_number) (get "type" (object rule));
    week = given (to_number parse_number) (get "week" (object rule));
    time = given (to_number parse_number) (get "time" (object rule));
    sun_offset = given (to_number parse_number) (get "sunOffset" (object rule));
    duration = given (to_number parse_number) (get "duration" (object rule));
    extend = given (λ v. v) (get "extend" (object rule));
  }

  module _ (cfg : LanConfig) (net : Network) where
    -- The `try` block.
    unfoldable pub patch_timer_x : (uuid id : String) (patch : Value) → Handler Patched
    patch_timer_x uuid id patch = do
      (host, key) ← lan_access cfg uuid
      current ← send net (request host key (get_timer_x id))
      rule ←
          answer (rule_in "timerx" "timerx_not_found" "TimerX rule not found in response" current)
      sent ← answer (patched_rule parse_number print_value patch rule)
      resp ← send net (request host key (set_timer_x (object sent)))
      poll_after cfg uuid
      reply (record { host = host; id = id; updated = parse_timer_x_rule sent; resp = resp })

    unfoldable pub patch_device_timer_x : (body : Value) → Handler Patched
    patch_device_timer_x body = do
      let uuid = to_text print_value (get "uuid" body)
      let id = trim (to_text print_value (get "id" body))
      refuse_if (str_eq uuid "") "missing_uuid" "Missing uuid"
      refuse_if (str_eq id "") "missing_id" "Missing id"
      refuse_if (wants_none (get "patch" body)) "missing_fields" "No patch fields provided"
      patch_timer_x uuid id (get "patch" body)
