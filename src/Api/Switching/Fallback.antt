-- ===== src/Api/Switching/Fallback.antt =====
-- The order of the requests that switch a device.
use merossity.Prelude.{String}
use merossity.Prelude.{◌≡◌, sym, ap, ◌∙◌, ◌⊎◌, inl, inr}
use merossity.Prelude.{List, [], ◌∷◌, ◌++◌}
use mathlib.Core.Path.{subst}
use merossity.Prelude.Results.{Result-cases, ok, err}
use merossity.Json.{Number, Value, Items, get}
use merossity.Api.Client.{Action, LanConfig, Network, done, polled, to_text}
use merossity.Api.Client.Outcomes.{
  follow_done, send_done, lan_access_done, refuse_if_done, poll_reply_done, done-inj,
}
use merossity.Api.Switching.{
  try_both, toggle_device, toggle_requests, prefers_light, Toggled, bit_of,
}

-- The first request was answered, or it failed and the second one was answered.
abbrev pub Tried :
    Network → (first second : Action) (log after : List Action) (resp : Value) → Type 0
Tried net first second log after resp =
    ((net log first ≡ ok resp) × (after ≡ log ++ first ∷ []))
    ⊎ ((message : String) × (net log first ≡ err message)
        × (net (log ++ first ∷ []) second ≡ ok resp)
        × (after ≡ (log ++ first ∷ []) ++ second ∷ []))

try_both-Tried :
    (net : Network) (first second : Action) (log after : List Action) {resp : Value}
    → try_both net first second log ≡ (done resp, after)
    → Tried net first second log after resp
unfolding try_both
try_both-Tried net first second log after {resp} h =
    let (r, mid, e, f) = follow_done h in
    let (same, step) = done-inj e in
    elim (Result-cases r) [
      | inl (v, g) ↦
          let (same_v, last) = done-inj (rw g at f) in
          subst (λ v. Tried net first second log after v) same_v
            (inl (same ∙ g, sym last ∙ sym step))
      | inr (message, g) ↦
          let (a, s) = send_done net second mid after (rw g at f) in
          inr (
            message,
            same ∙ g,
            ap (λ l. net l second) step ∙ a,
            s ∙ ap (λ l. l ++ second ∷ []) (sym step),
          )
    ]

module _ (parse_number : Value → Number) (print_value : Value → String) (cfg : LanConfig)
    (net : Network) where
  -- A toggle that succeeds has sent the request that the model of the device prefers, and the other
  -- one exactly where that failed. It answers the channel that it sent and what came back, and a poll
  -- follows.
  pub toggle_device-Tried :
      (upper_case : String → String) (devices : Items) (body : Value) (log after : List Action)
      {t : Toggled}
      → toggle_device parse_number print_value cfg net upper_case devices body log ≡ (done t, after)
      → let uuid = to_text print_value (get "uuid" body) in
        (key : String) × (sent : List Action) × (let tries =
            toggle_requests parse_number print_value cfg net
              (prefers_light parse_number print_value upper_case devices uuid)
              t.host
              key
              t.channel
              (bit_of parse_number print_value (get "onoff" body)) in
          Tried net (tries.0) (tries.1) log sent t.resp)
        × (after ≡ sent ++ polled cfg uuid)
  unfolding toggle_device
  toggle_device-Tried upper_case devices body log after {t} h =
      let uuid = to_text print_value (get "uuid" body) in
      let onoff = bit_of parse_number print_value (get "onoff" body) in
      let light = prefers_light parse_number print_value upper_case devices uuid in
      let (_, l1, e1, h1) = follow_done h in
      let (channel, l2, e2, h2) = follow_done h1 in
      let ((host, key), l3, e3, h3) = follow_done h2 in
      let (resp, l4, e4, h4) = follow_done h3 in
      let (same, last) = poll_reply_done cfg uuid l4 h4 in
      let start : l3 ≡ log =
        (lan_access_done cfg uuid l2 l3 e3).2
        ∙ sym (ap (λ r. r.1) e2)
        ∙ (refuse_if_done _ _ _ log l1 e1).1 in
      let T : Toggled → List Action → Type 0 = λ t l.
        let tries =
          toggle_requests parse_number print_value cfg net light t.host key t.channel onoff in
        Tried net (tries.0) (tries.1) l l4 t.resp in
      let tries = toggle_requests parse_number print_value cfg net light host key channel onoff in
      (
        key,
        l4,
        subst (λ l. T t l) start
            (subst (λ t. T t l3) same (try_both-Tried net (tries.0) (tries.1) l3 l4 e4)),
        last,
      )
