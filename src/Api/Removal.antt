-- ===== src/Api/Removal.antt =====
-- packages/core/src/api/delete-device-timerx.ts and delete-device-triggerx.ts: a rule is sent back
-- with `enable` -1, which deletes it, and with 0 where the device answers that with an error.
pub mod Outcome
use merossity.Prelude.{◌-◌, String}
use merossity.Prelude.{Bool, true, false, not}
use merossity.Prelude.{Option, none, some}
use merossity.Prelude.{◌==◌, str_eq, if◌then◌else◌}
use merossity.Prelude.{map_option}
use merossity.Prelude.Integers.{ℤ, pos, negsuc}
use merossity.Prelude.Results.{Result, ok, err}
use merossity.Prelude.Texts.{trim}
use Prim.Native.String.{◌++◌ as append_text}
use merossity.Json.{
  Number, Value, number, finite, text, object, Fields, field, end, get, put, round, unit, is_truthy,
}
use merossity.Poller.Digest.{coerce_finite_number}
use merossity.Api.Client.{
  request, Request, get_timer_x, set_timer_x, get_trigger_x, set_trigger_x, LanConfig, Network,
  Handler,
}
use merossity.Api.Client.{
  ◌>>=◌, ◌>>◌, reply, refuse, answer, attempt, send, lan_access, refuse_if, poll_after, to_text,
}
use merossity.Api.Rules.{rule_of}
use merossity.Api.Timers.{rule_in}

-- The body of the answer.
pub record Deletion : Type 0 where
  pub host : String
  pub id : String
  pub deleted : Bool
  pub disabled : Bool
  pub resp : Value

-- `code === null || code === 0`
abbrev pub is_fine : Option ℤ → Bool
is_fine none = true
is_fine (some (pos z)) = z == 0
is_fine (some (negsuc n)) = false

abbrev pub minus_one : Value
minus_one = number (finite (negsuc (unit - 1)))

abbrev pub nought : Value
nought = number (finite (pos 0))

-- What differs between timers and triggers: the request and the texts of the error.
pub record RuleKind : Type 0 where
  pub send_rule : Value → Request
  pub failed_code : String
  pub failed_text : String

abbrev pub timer_x : RuleKind
timer_x = record {
  send_rule = set_timer_x;
  failed_code = "timerx_delete_failed";
  failed_text = "TimerX delete failed (error code ";
}

abbrev pub trigger_x : RuleKind
trigger_x = record {
  send_rule = set_trigger_x;
  failed_code = "triggerx_delete_failed";
  failed_text = "TriggerX delete failed (error code ";
}

-- `rule ?? { id }`
abbrev rule_or_id : (id : String) → Option Fields → Fields
rule_or_id id none = field "id" (text id) end
rule_or_id id (some rule) = rule

-- The rule in the answer, where there was one.
abbrev trigger_in : Result Value → Option Fields
trigger_in (err message) = none
trigger_in (ok resp) =
    if is_truthy resp then rule_of "triggerx" (get "triggerx" (get "payload" resp)) else none

module _ (parse_number : Value → Number) (print_value : Value → String) where
  unfoldable pub lan_error_code : Value → Option ℤ
  lan_error_code resp =
      map_option round
        (coerce_finite_number parse_number (get "code" (get "error" (get "payload" resp))))

  abbrev pub code_text : Option ℤ → String
  code_text none = ""
  code_text (some n) = print_value (number (finite n))

  module _ (cfg : LanConfig) (net : Network) where
    -- The two tries, in the texts of both files.
    unfoldable pub delete_rule : RuleKind → (uuid id host key : String) → Fields → Handler Deletion
    delete_rule kind uuid id host key rule =
        let gone = put "enable" minus_one rule in
        let off = put "enable" nought gone in
        send net (request host key (kind.send_rule (object gone))) >>= (λ resp.
          if is_fine (lan_error_code resp)
          then (poll_after cfg uuid
              >> reply
                  (record { host = host; id = id; deleted = true; disabled = false; resp = resp }))
          else (send net (request host key (kind.send_rule (object off))) >>= (λ resp2.
              if is_fine (lan_error_code resp2)
              then (poll_after cfg uuid
                  >> reply (record {
                    host = host;
                    id = id;
                    deleted = false;
                    disabled = true;
                    resp = resp2;
                  }))
              else refuse kind.failed_code (
                  append_text kind.failed_text
                    (append_text (code_text (lan_error_code resp2)) ")")))))

    unfoldable pub delete_device_timer_x : (body : Value) → Handler Deletion
    delete_device_timer_x body = do
      let uuid = to_text print_value (get "uuid" body)
      let id = trim (to_text print_value (get "id" body))
      refuse_if (str_eq uuid "") "missing_uuid" "Missing uuid"
      refuse_if (str_eq id "") "missing_id" "Missing id"
      (host, key) ← lan_access cfg uuid
      current ← send net (request host key (get_timer_x id))
      rule ←
          answer (rule_in "timerx" "timerx_not_found" "TimerX rule not found in response" current)
      delete_rule timer_x uuid id host key rule

    unfoldable pub delete_device_trigger_x : (body : Value) → Handler Deletion
    delete_device_trigger_x body = do
      let uuid = to_text print_value (get "uuid" body)
      let id = trim (to_text print_value (get "id" body))
      refuse_if (str_eq uuid "") "missing_uuid" "Missing uuid"
      refuse_if (str_eq id "") "missing_id" "Missing id"
      (host, key) ← lan_access cfg uuid
      current ← attempt net (request host key (get_trigger_x id))
      delete_rule trigger_x uuid id host key (rule_or_id id (trigger_in current))
