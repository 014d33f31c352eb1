-- ===== src/Web/Views/Lights/Sent.antt =====
-- What SmartLightControls.tsx sends is what the device is asked for.
use merossity.Prelude.{ℕ, ◌+◌, ◌*◌, ◌/◌, ◌≤◌, String}
use merossity.Prelude.{◌≡◌, refl, ap, ◌∙◌, ◌≢◌, true, false}
use merossity.Prelude.{Option, none, some, List, [], ◌∷◌, ◌++◌, arith, eq_iff}
use merossity.Prelude.{str_eq}
use merossity.Prelude.{map_option}
use merossity.Prelude.Integers.{ℤ, pos, negsuc}
use merossity.Prelude.Results.{ok}
use merossity.Json.{Number, Value, undefined, text, get, round, unit, natural_of}
use merossity.Poller.Digest.{coerce_finite_number, to_number}
use merossity.Poller.Reading.{require_lan_key}
use merossity.Api.Client.{
  Action, request, set_light, LightFields, LanConfig, Network, done, polled, require_lan_host,
  follow, refuse_if,
}
use merossity.Api.Client.Outcomes.{send_ok, lan_access_ok}
use merossity.Api.Switching.{
  clamp_int, clamped, apply_light, set_device_light, channel_of, given_bit,
}
use merossity.Web.Views.Lights.{clamp, clamp_round, Patch, send_light_body, whole}

clamp-le : (n : ℤ) (hi : ℕ) → clamp n hi ≤ hi * unit
unfolding clamp
clamp-le (pos z) hi = omega arith
clamp-le (negsuc n) hi = omega arith

clamp_round-le : (n : ℤ) (hi : ℕ) → clamp_round n hi ≤ hi
unfolding clamp_round
clamp_round-le n hi = let h = clamp-le (round n) hi in omega (arith, h)

clamp_int-whole : (k hi : ℕ) → k ≤ hi → clamp_int (some (pos (k * unit))) 0 hi ≡ some k
unfolding clamp_int round
clamp_int-whole k hi h =
    let same : (k * unit + unit / 2) / unit * unit / unit ≡ k = omega arith in
    rw same (ap some (omega (arith, h)))

-- The value of a field that may be left out.
abbrev sent_value : Option ℤ → (hi : ℕ) → Value
sent_value none hi = undefined
sent_value (some n) hi = whole (clamp_round n hi)

abbrev pub sent : Option ℤ → (hi : ℕ) → Option ℕ
sent o hi = map_option (λ n. clamp_round n hi) o

module _ (parse_number : Value → Number) (print_value : Value → String) where
  clamped-sent :
      (o : Option ℤ) (hi : ℕ) (code message : String)
      → clamped parse_number print_value (sent_value o hi) hi code message ≡ done (sent o hi)
  unfolding coerce_finite_number
  clamped-sent none hi code message = refl
  clamped-sent (some n) hi code message =
      rw (clamped, clamp_int-whole (clamp_round n hi) hi (clamp_round-le n hi)) refl

  clamped-at :
      {v : Value} (o : Option ℤ) (hi : ℕ)
      → v ≡ sent_value o hi
      → (code message : String)
      → clamped parse_number print_value v hi code message ≡ done (sent o hi)
  clamped-at {v} o hi e code message =
      ap (λ w. clamped parse_number print_value w hi code message) e
      ∙ clamped-sent o hi code message

  get_luminance :
      (uuid : String) (l t c : Option ℤ)
      → get "luminance" (send_light_body uuid (record { luminance = l; temperature = t; rgb = c }))
        ≡ sent_value l 100
  unfolding get send_light_body
  get_luminance uuid (some l) t c = refl
  get_luminance uuid none (some t) (some c) = refl
  get_luminance uuid none (some t) none = refl
  get_luminance uuid none none (some c) = refl
  get_luminance uuid none none none = refl

  get_temperature :
      (uuid : String) (l t c : Option ℤ)
      → get "temperature"
          (send_light_body uuid (record { luminance = l; temperature = t; rgb = c }))
        ≡ sent_value t 100
  unfolding get send_light_body
  get_temperature uuid (some l) (some t) c = refl
  get_temperature uuid none (some t) c = refl
  get_temperature uuid (some l) none (some c) = refl
  get_temperature uuid (some l) none none = refl
  get_temperature uuid none none (some c) = refl
  get_temperature uuid none none none = refl

  get_rgb :
      (uuid : String) (l t c : Option ℤ)
      → get "rgb" (send_light_body uuid (record { luminance = l; temperature = t; rgb = c }))
        ≡ sent_value c 16777215
  unfolding get send_light_body
  get_rgb uuid (some l) (some t) (some c) = refl
  get_rgb uuid (some l) (some t) none = refl
  get_rgb uuid (some l) none (some c) = refl
  get_rgb uuid (some l) none none = refl
  get_rgb uuid none (some t) (some c) = refl
  get_rgb uuid none (some t) none = refl
  get_rgb uuid none none (some c) = refl
  get_rgb uuid none none none = refl

  get_parts :
      (uuid : String) (patch : Patch)
      → let body = send_light_body uuid patch in
        (get "uuid" body ≡ text uuid)
        × (get "channel" body ≡ whole 0)
        × (get "onoff" body ≡ whole 1)
  unfolding get send_light_body
  get_parts uuid patch = (refl, refl, refl)

  whole_channel : channel_of parse_number print_value (whole 0) ≡ done 0
  unfolding to_number natural_of
  whole_channel = refl

  whole_bit : given_bit parse_number print_value (whole 1) ≡ some true
  unfolding to_number
  whole_bit = refl

  -- What the device is asked for.
  abbrev pub wanted_light : Patch → LightFields
  wanted_light patch = record {
    channel = 0;
    onoff = some true;
    luminance = sent patch.luminance 100;
    temperature = sent patch.temperature 100;
    rgb = sent patch.rgb 16777215;
  }

  module _ (cfg : LanConfig) (net : Network) where
    -- Any adjustment, with any values or none, is a request that the server takes: given the host,
    -- the key and the device's answer, the device is asked once, to be on and for exactly the values
    -- that were sent, and a poll follows.
    pub set_device_light-send_light_body :
        (uuid : String) (patch : Patch) (log : List Action) {host key : String} {resp : Value}
        → uuid ≢ ""
        → require_lan_host cfg uuid ≡ ok host
        → require_lan_key cfg.cloud_key cfg.env_key ≡ ok key
        → let ask = request host key (set_light (wanted_light patch)) in
          net log ask ≡ ok resp
          → set_device_light parse_number print_value cfg net (send_light_body uuid patch) log ≡ (
            done (record { host = host; channel = 0; resp = resp }),
            (log ++ ask ∷ []) ++ polled cfg uuid,
          )
    unfolding set_device_light apply_light refuse_if follow
    set_device_light-send_light_body uuid patch log {host} {key} {resp} u h k a =
        let full : str_eq uuid "" ≡ false = ground (arith, eq_iff uuid "") in
        let (at_uuid, at_channel, at_onoff) = get_parts uuid patch in
        let l = get_luminance uuid patch.luminance patch.temperature patch.rgb in
        let t = get_temperature uuid patch.luminance patch.temperature patch.rgb in
        let c = get_rgb uuid patch.luminance patch.temperature patch.rgb in
        let asked = send_ok net (request host key (set_light (wanted_light patch))) log a in
        let channel = ap (channel_of parse_number print_value) at_channel ∙ whole_channel in
        let onoff = ap (given_bit parse_number print_value) at_onoff ∙ whole_bit in
        let lum = clamped-at patch.luminance 100 l in
        let temp = clamped-at patch.temperature 100 t in
        let rgb = clamped-at patch.rgb 16777215 c in
        rw
          (
            at_uuid,
            refuse_if,
            full,
            follow,
            channel,
            lum _ _,
            temp _ _,
            rgb _ _,
            onoff,
            lan_access_ok cfg uuid log h k,
            asked,
          )
          refl
