-- ===== src/Api/Timers/Found.antt =====
-- The rule that a handler goes on with.
use merossity.Prelude.{String}
use merossity.Prelude.{◌≡◌, inl, inr}
use merossity.Prelude.{some, arith}
use merossity.Prelude.{Option-cases}
use merossity.Json.{Value, Fields, get}
use merossity.Api.Client.{done}
use merossity.Api.Rules.{rule_of}
use merossity.Api.Timers.{rule_in}

pub rule_in_done :
    (kind code message : String) (resp : Value) {rule : Fields}
    → rule_in kind code message resp ≡ done rule
    → rule_of kind (get kind (get "payload" resp)) ≡ some rule
rule_in_done kind code message resp h =
    elim (Option-cases (rule_of kind (get kind (get "payload" resp)))) [
      | inl e ↦ ground (arith, rw (e, rule_in) at h)
      | inr (rule, e) ↦ ground (arith, rw (e, rule_in) at h)
    ]
