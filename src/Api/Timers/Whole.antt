-- ===== src/Api/Timers/Whole.antt =====
use merossity.Prelude.{String}
use merossity.Prelude.{◌≡◌, refl, sym, ap, ◌∙◌, ◌≢◌, ◌⊎◌, inl, inr}
use merossity.Prelude.{List, [], ◌∷◌, ◌++◌}
use mathlib.Core.Path.{subst}
use merossity.Prelude.Results.{ok}
use merossity.Prelude.Texts.{trim}
use merossity.Json.{Number, Value, object, Fields, get}
use merossity.Api.Client.{
  Action, request, get_timer_x, set_timer_x, LanConfig, require_lan_host, Network, done, refused,
  polled, to_text,
}
use merossity.Api.Client.Outcomes.{
  Leaves, follow_done, follow_done, send_done, lan_access_done, refuse_if_done, follow-Leaves,
  refuse_if-Leaves, lan_access-Leaves, send-Leaves, answer-Leaves, done-Leaves,
}
use merossity.Api.Timers.{patch_timer_x, patch_device_timer_x, Patched, rule_in, parse_timer_x_rule}
use merossity.Api.Timers.Patch.{patched_rule}
use merossity.Api.Rules.{HasId}

module _ (parse_number : Value → Number) (print_value : Value → String) (cfg : LanConfig)
    (net : Network) where
  -- What a patch that succeeds has done.
  pub record Patches (uuid id : String) (patch : Value) (log after : List Action) (p : Patched)
      : Type 0 where
    pub key : String
    pub current : Value
    pub rule : Fields
    pub sent : Fields
    pub same_id : p.id ≡ id
    pub host_known : require_lan_host cfg uuid ≡ ok p.host
    pub asked : net log (request p.host key (get_timer_x id)) ≡ ok current
    pub rule_found :
        rule_in "timerx" "timerx_not_found" "TimerX rule not found in response" current ≡ done rule
    pub patched : patched_rule parse_number print_value patch rule ≡ done sent
    pub kept_id : get "id" (object sent) ≡ get "id" (object rule)
    pub has_id : HasId sent
    pub updated : p.updated ≡ parse_timer_x_rule parse_number print_value sent
    pub logged :
        after
        ≡ ((log ++ request p.host key (get_timer_x id) ∷ [])
            ++ request p.host key (set_timer_x (object sent)) ∷ [])
          ++ polled cfg uuid

  -- The log when the device was asked for the rule, or nothing was sent.
  abbrev pub Asked : (id : String) → List Action → List Action → Type 0
  Asked id log l =
      (l ≡ log) ⊎ ((host key : String) × (l ≡ log ++ request host key (get_timer_x id) ∷ []))

  patch_timer_x-Leaves :
      (uuid id : String) (patch : Value) (log : List Action)
      → Leaves (Asked id log) (patch_timer_x parse_number print_value cfg net uuid id patch log)
  unfolding patch_timer_x
  patch_timer_x-Leaves uuid id patch log =
      let Q = Asked id log in
      follow-Leaves Q (lan_access-Leaves Q cfg uuid log) (λ access l1 e1.
        let start : l1 ≡ log = (lan_access_done cfg uuid log l1 e1).2 in
        follow-Leaves Q (send-Leaves Q net _ l1) (λ current l2 e2.
          let asked : Q l2 = inr (
            access.0,
            access.1,
            (send_done net _ l1 l2 e2).1
                ∙ ap (λ l. l ++ request access.0 access.1 (get_timer_x id) ∷ []) start,
          ) in
          follow-Leaves Q (answer-Leaves Q _ l2 asked) (λ rule l3 e3.
            let asked : Q l3 = subst Q (ap (λ r. r.1) e3) asked in
            follow-Leaves Q (answer-Leaves Q _ l3 asked) (λ sent l4 e4.
              follow-Leaves Q (send-Leaves Q net _ l4) (λ resp l5 e5.
                follow-Leaves Q (done-Leaves Q tt _) (λ _ l6 e6. done-Leaves Q _ l6))))))

  -- A patch that is refused, but for an error of the network or of the configuration, has sent
  -- nothing to the device, or only the question for the rule.
  pub patch_device_timer_x-refused :
      (body : Value) (log after : List Action) {code message : String}
      → patch_device_timer_x parse_number print_value cfg net body log
        ≡ (refused code message, after)
      → code ≢ "lan_error"
      → Asked (trim (to_text print_value (get "id" body))) log after
  unfolding patch_device_timer_x
  patch_device_timer_x-refused body log after {code} {message} h n =
      let Q = Asked (trim (to_text print_value (get "id" body))) log in
      follow-Leaves Q (refuse_if-Leaves Q _ _ _ log (inl refl))
        (λ _ l1 e1.
          let s1 : l1 ≡ log = (refuse_if_done _ _ _ log l1 e1).1 in
          follow-Leaves Q (refuse_if-Leaves Q _ _ _ l1 (inl s1)) (λ _ l2 e2.
            let s2 : l2 ≡ log = (refuse_if_done _ _ _ l1 l2 e2).1 ∙ s1 in
            follow-Leaves Q (refuse_if-Leaves Q _ _ _ l2 (inl s2)) (λ _ l3 e3.
              let s3 : l3 ≡ log = (refuse_if_done _ _ _ l2 l3 e3).1 ∙ s2 in
              let uuid = to_text print_value (get "uuid" body) in
              let id = trim (to_text print_value (get "id" body)) in
              let patch = get "patch" body in
              subst (λ l. Leaves Q (patch_timer_x parse_number print_value cfg net uuid id patch l))
                (sym s3) (patch_timer_x-Leaves uuid id patch log))))
        code message after h n
