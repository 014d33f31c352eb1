-- ===== src/Api/Switching/Ranges.antt =====
-- The ranges of what a device is asked to show.
use merossity.Prelude.{ℕ, ◌/◌, ◌≤◌, min, max, String}
use merossity.Prelude.{◌≡◌, refl, sym, ap, ◌∙◌, inl, inr, false}
use merossity.Prelude.{Option, none, some, List, [], ◌∷◌, ◌++◌, arith}
use merossity.Prelude.{Bool-cases, Option-cases}
use merossity.Prelude.Integers.{ℤ, pos, negsuc}
use mathlib.Core.Path.{subst}
use merossity.Prelude.Results.{ok}
use merossity.Json.{Number, Value, get, round, unit}
use merossity.Poller.Digest.{coerce_finite_number}
use merossity.Api.Client.{
  Action, request, set_light, LightFields, Reply, done, refused, LanConfig, Network, polled,
  to_text, is_undefined,
}
use merossity.Api.Client.Outcomes.{
  follow_done, send_done, lan_access_done, refuse_if_done, poll_reply_done,
}
use merossity.Api.Switching.{
  clamp_int, clamped, given_bit, misses_all, apply_light, set_device_light, LightSet,
}

-- A value that is given is in range.
abbrev pub AtMost : (hi : ℕ) → Option ℕ → Type 0
AtMost hi none = Unit {0}
AtMost hi (some n) = n ≤ hi

abbrev pub InRange : LightFields → Type 0
InRange f = AtMost 100 f.luminance × AtMost 100 f.temperature × AtMost 16777215 f.rgb

replied : {A : Type 0} {a b : A} → ◌≡◌ {A = Reply A} (done a) (done b) → a ≡ b
replied h = cc

clamp_int-AtMost : (n : Option ℤ) (hi : ℕ) → AtMost hi (clamp_int n 0 hi)
unfolding clamp_int
clamp_int-AtMost none hi = tt
clamp_int-AtMost (some n) hi =
    elim (round n)
      as (λ r.
        AtMost hi (elim r [ pos z ↦ some (max 0 (min hi (z / unit))) | negsuc z ↦ some 0 ])) [
          | pos z ↦ omega arith
          | negsuc z ↦ omega arith
        ]

module _ (parse_number : Value → Number) (print_value : Value → String) where
  clamped-AtMost :
      (v : Value) (hi : ℕ) (code message : String) {n : Option ℕ}
      → clamped parse_number print_value v hi code message ≡ done n
      → AtMost hi n
  clamped-AtMost v hi code message {n} h =
      let got = clamp_int (coerce_finite_number parse_number v) 0 hi in
      let bounded : AtMost hi got = clamp_int-AtMost (coerce_finite_number parse_number v) hi in
      elim (Bool-cases (is_undefined v)) [
        | inl e ↦ subst (AtMost hi) (replied (rw (e, clamped) at h)) tt
        | inr e ↦ elim (Option-cases got) [
          | inl f ↦
              let bad : ◌≡◌ {A = Reply (Option ℕ)} (refused code message) (done n) =
                rw (e, f, clamped) at h in
              cc
          | inr (m, f) ↦ subst (AtMost hi) (f ∙ replied (rw (e, f, clamped) at h)) bounded
        ]
      ]

  module _ (cfg : LanConfig) (net : Network) where
    -- The light was set, and the answer is the device's.
    abbrev pub LightWasSet :
        (uuid key : String) → LightFields → (log after : List Action) → LightSet → Type 0
    LightWasSet uuid key f log after s =
        (f.channel ≡ s.channel)
        × (net log (request s.host key (set_light f)) ≡ ok s.resp)
        × (after ≡ (log ++ request s.host key (set_light f) ∷ []) ++ polled cfg uuid)

    apply_light-sets :
        (uuid : String) (f : LightFields) (log after : List Action) {s : LightSet}
        → apply_light parse_number print_value cfg net uuid f log ≡ (done s, after)
        → (key : String) × LightWasSet uuid key f log after s
    unfolding apply_light
    apply_light-sets uuid f log after {s} h =
        let ((host, key), l1, e1, h1) = follow_done h in
        let (resp, l2, e2, h2) = follow_done h1 in
        let ask = request host key (set_light f) in
        let (a2, s2) = send_done net ask l1 l2 e2 in
        let (same, last) = poll_reply_done cfg uuid l2 h2 in
        let start : l1 ≡ log = (lan_access_done cfg uuid log l1 e1).2 in
        (
          key,
          subst (LightWasSet uuid key f log after) same (
            refl,
            ap (λ l. net l ask) (sym start) ∙ a2,
            last ∙ ap (λ l. l ++ polled cfg uuid) (s2 ∙ ap (λ l. l ++ ask ∷ []) start),
          ),
        )

    -- A light that is set was set by one request, which the device answered and a poll follows. Its
    -- luminance and temperature are at most 100 and its colour is below 2^24, where they are given, at
    -- least one value is given, and it is switched as the body asks.
    pub set_device_light-InRange :
        (body : Value) (log after : List Action) {s : LightSet}
        → set_device_light parse_number print_value cfg net body log ≡ (done s, after)
        → (key : String) × (f : LightFields) × InRange f
          × (misses_all f ≡ false)
          × (f.onoff ≡ given_bit parse_number print_value (get "onoff" body))
          × LightWasSet (to_text print_value (get "uuid" body)) key f log after s
    unfolding set_device_light
    set_device_light-InRange body log after {s} h =
        let uuid = to_text print_value (get "uuid" body) in
        let (_, l1, e1, h1) = follow_done h in
        let (channel, l2, e2, h2) = follow_done h1 in
        let (luminance, l3, e3, h3) = follow_done h2 in
        let (temperature, l4, e4, h4) = follow_done h3 in
        let (rgb, l5, e5, h5) = follow_done h4 in
        let (_, l6, e6, h6) = follow_done h5 in
        let f : LightFields = record {
          channel = channel;
          onoff = given_bit parse_number print_value (get "onoff" body);
          luminance = luminance;
          temperature = temperature;
          rgb = rgb;
        } in
        let (full, s6) = refuse_if_done _ _ _ l5 l6 e6 in
        let (key, was_set) = apply_light-sets uuid f l6 after h6 in
        let start : l6 ≡ log =
          s6
          ∙ sym (ap (λ r. r.1) e5)
          ∙ sym (ap (λ r. r.1) e4)
          ∙ sym (ap (λ r. r.1) e3)
          ∙ sym (ap (λ r. r.1) e2)
          ∙ (refuse_if_done _ _ _ log l1 e1).1 in
        (
          key,
          f,
          (
            clamped-AtMost _ _ _ _ (ap (λ r. r.0) e3),
            clamped-AtMost _ _ _ _ (ap (λ r. r.0) e4),
            clamped-AtMost _ _ _ _ (ap (λ r. r.0) e5),
          ),
          full,
          refl,
          subst (λ l. LightWasSet uuid key f l after s) start was_set,
        )
