-- ===== src/Api/States/Agreement.antt =====
-- What get-device-state.ts reads from a response, and what a poll does.
use merossity.Prelude.{ℕ, String}
use merossity.Prelude.{◌≡◌, refl, sym, ◌∙◌, ◌⊎◌, inl, inr, Bool, true}
use merossity.Prelude.{some, List, [], ◌∷◌, arith, eq_refl}
use merossity.Prelude.{◌==◌, str_eq}
use merossity.Prelude.{Option-cases, get_or, map_option}
use mathlib.Core.Path.{subst}
use merossity.Prelude.Sorting.{sort, sort_sorted}
use merossity.Prelude.Results.{Result-cases, ok, ◌>>=◌}
use merossity.Json.{Number, Value}
use merossity.Poller.Types.{LanToggleXChannel, LanLightState, DeviceStateDto, manual}
use merossity.Poller.Reading.{
  SystemAll, Answers, Primary, first_or, primary_of, normalize_channels, read_state,
  require_lan_key, require_text,
}
use merossity.Poller.Digest.{extract_lan_toggle_x}
use merossity.Poller.Digest.Ordered.{channel_le, extract_lan_toggle_x-Chosen}
use merossity.Poller.Digest.Least.{system_all_of}
use merossity.Api.Client.{
  Action, request, get_system_all, LanConfig, Network, Reply, done, refused, follow, send,
  or_lan_error, lan_access, require_lan_host,
}
use merossity.Api.States.{
  PollNowResult, match_of, state_reply, poll_reply, kind_of, response_reply, read_device_state,
}

-- A reply without the message of a refusal.
abbrev pub outcome : {A : Type 0} → Reply A → A ⊎ String
outcome (done a) = inl a
outcome (refused code message) = inr code

primary-kind :
    (channels : List LanToggleXChannel) (lights : List LanLightState) {p : Primary}
    → primary_of channels lights ≡ some p
    → (p.kind
        ≡ kind_of (first_or (λ l. l.channel == 0) lights) (first_or (λ c. c.channel == 0) channels))
      × (p.light ≡ first_or (λ l. l.channel == 0) lights)
unfolding primary_of
primary-kind channels lights h = elim (Option-cases (first_or (λ l. l.channel == 0) lights)) [
  | inl e ↦ elim (Option-cases (first_or (λ c. c.channel == 0) channels)) [
    | inl f ↦ ground (arith, rw (primary_of, e, f) at h)
    | inr (c, f) ↦ rw e (ground (arith, rw (primary_of, e, f) at h))
  ]
  | inr (l, e) ↦ elim (Option-cases (first_or (λ c. c.channel == 0) channels)) [
    | inl f ↦ rw (e, f) (ground (arith, rw (primary_of, e, f) at h))
    | inr (c, f) ↦ rw (e, f) (ground (arith, rw (primary_of, e, f) at h))
  ]
]

-- The channels that a response tells are in order already.
pub channels_sorted :
    (parse_number : Value → Number) (resp : Value)
    → let channels = get_or (extract_lan_toggle_x parse_number resp) [] in
      normalize_channels channels ≡ channels
unfolding normalize_channels sort
channels_sorted parse_number resp = elim (Option-cases (extract_lan_toggle_x parse_number resp)) [
  | inl e ↦ rw e refl
  | inr (channels, e) ↦
      rw e
        (sort_sorted channel_le channels (extract_lan_toggle_x-Chosen parse_number resp e).ordered)
]

-- A state with what a response tells.
abbrev told_by : SystemAll → DeviceStateDto → DeviceStateDto
told_by resp st =
    let channels = get_or resp.togglex_of [] in
    let lights = get_or resp.light_of [] in
    let light0 = first_or (λ l. l.channel == 0) lights in
    record st {
      kind = kind_of light0 (first_or (λ c. c.channel == 0) channels);
      channels = channels;
      lights = lights;
      light = light0;
      timerx_digest = resp.timerx_of;
      triggerx_digest = resp.triggerx_of;
    }

told_by_self :
    (resp : SystemAll) (st : DeviceStateDto)
    → st.kind ≡ (told_by resp st).kind
    → st.channels ≡ (told_by resp st).channels
    → st.lights ≡ (told_by resp st).lights
    → st.light ≡ (told_by resp st).light
    → st.timerx_digest ≡ resp.timerx_of
    → st.triggerx_digest ≡ resp.triggerx_of
    → st ≡ told_by resp st
told_by_self resp st k c l o t g = cc

told_by-reply :
    (channel : ℕ) (resp : SystemAll) (st : DeviceStateDto)
    → outcome (response_reply st.host channel resp)
      ≡ outcome (state_reply channel (told_by resp st))
unfolding response_reply state_reply
told_by-reply channel resp st =
    elim (Option-cases (match_of channel (get_or resp.light_of []) (get_or resp.togglex_of []))) [
      | inl e ↦ rw (outcome, e) refl
      | inr (m, e) ↦ rw (outcome, e) refl
    ]

pub poll_reply-single :
    (uuid : String) (channel polled_at : ℕ) (result : PollNowResult) (st : DeviceStateDto)
    → st.uuid ≡ uuid
    → result ≡ record { polled_at = polled_at; states = st ∷ []; errors = [] }
    → poll_reply uuid channel result ≡ state_reply channel st
unfolding poll_reply
poll_reply-single uuid channel polled_at result st e h =
    let same : str_eq st.uuid uuid ≡ true = rw e (eq_refl uuid) in
    subst (λ r. poll_reply uuid channel r ≡ state_reply channel st) (sym h)
      (rw (poll_reply, same) refl)

-- What a poll reads from a response, and what the handler reads from it.
module _ (parse_number : Value → Number) (print_value : Value → String)
    (locale_le : String → String → Bool) where
  abbrev pub system : Value → SystemAll
  system = system_all_of parse_number print_value locale_le

  -- The parts of a state that is read.
  pub read_state-parts :
      (uuid : String) (answers : Answers) {resp : SystemAll} {st : DeviceStateDto}
      → answers.system_all ≡ ok resp
      → read_state uuid manual answers ≡ ok st
      → (require_text answers.host_entry "No LAN host known for device uuid. Resolve host first."
          ≡ ok st.host)
        × (st.uuid ≡ uuid)
        × (st.channels ≡ normalize_channels (get_or resp.togglex_of []))
        × (st.lights ≡ get_or resp.light_of [])
        × (st.timerx_digest ≡ resp.timerx_of)
        × (st.triggerx_digest ≡ resp.triggerx_of)
        × (map_option (λ p. p.kind) (primary_of st.channels st.lights) ≡ some st.kind)
        × (map_option (λ p. p.light) (primary_of st.channels st.lights) ≡ some st.light)
  unfolding read_state
  read_state-parts uuid answers a e = ground arith

  read_state-reads :
      (uuid : String) (answers : Answers) {st : DeviceStateDto}
      → read_state uuid manual answers ≡ ok st
      → (key : String) × (sys : SystemAll) × (require_text answers.host_entry
            "No LAN host known for device uuid. Resolve host first."
          ≡ ok st.host)
        × (require_lan_key answers.cloud_key answers.env_key ≡ ok key)
        × (answers.system_all ≡ ok sys)
  unfolding read_state
  read_state-reads uuid answers h =
      let message : String = "No LAN host known for device uuid. Resolve host first." in
      elim (Result-cases (require_text answers.host_entry message)) [
        | inr (m, e) ↦ ground (arith, rw e at h)
        | inl (host, e) ↦ elim (Result-cases (require_lan_key answers.cloud_key answers.env_key)) [
          | inr (m, f) ↦ ground (arith, rw (e, f) at h)
          | inl (key, f) ↦ elim (Result-cases answers.system_all) [
            | inr (m, g) ↦ ground (arith, rw (e, f, g) at h)
            | inl (sys, g) ↦ (key, sys, (read_state-parts uuid answers g h).0, f, g)
          ]
        ]
      ]

  pub response_reply-agrees :
      (uuid : String) (channel updated_at : ℕ) (answers : Answers) (resp : Value)
      {st : DeviceStateDto}
      → answers.system_all ≡ ok (system resp)
      → read_state uuid manual answers ≡ ok st
      → outcome (response_reply st.host channel (system resp))
        ≡ outcome (state_reply channel (record st { updated_at = updated_at }))
  response_reply-agrees uuid channel updated_at answers resp {st} e h =
      let (_, _, cs, ls, ts, gs, kind, light) = read_state-parts uuid answers e h in
      let ordered = cs ∙ channels_sorted parse_number resp in
      elim (Option-cases (primary_of st.channels st.lights)) [
        | inl none_found ↦ cc (rw none_found at kind)
        | inr (p, found) ↦
            let (k, l) = primary-kind st.channels st.lights found in
            let shown : p.kind ≡ st.kind = ground (arith, rw found at kind) in
            let lit : p.light ≡ st.light = ground (arith, rw found at light) in
            let all : st ≡ told_by (system resp) st =
              told_by_self (system resp) st (sym shown ∙ (rw (kind_of, first_or, ls, ordered) at k))
                ordered ls (sym lit ∙ (rw (first_or, ls) at l)) ts gs in
            subst
              (λ s.
                outcome (response_reply st.host channel (system resp))
                ≡ outcome (state_reply channel (record s { updated_at = updated_at })))
              (sym all)
              (told_by-reply channel (system resp) (record st { updated_at = updated_at }))
      ]

  -- What a poll of the device gets from the configuration and the network.
  abbrev pub answers_of : LanConfig → Network → (log : List Action) (uuid : String) → Answers
  answers_of cfg net log uuid = record {
    host_entry = cfg.host_of uuid;
    cloud_key = cfg.cloud_key;
    env_key = cfg.env_key;
    system_all = require_lan_host cfg uuid >>= λ host.
        require_lan_key cfg.cloud_key cfg.env_key >>= λ key.
        net log (request host key get_system_all) >>= λ resp. ok (system resp);
  }

  module _ (cfg : LanConfig) (net : Network) (log : List Action) (uuid : String) where
    pub host_known :
        {host : String} (message : String)
        → require_text (cfg.host_of uuid) message ≡ ok host
        → require_lan_host cfg uuid ≡ ok host
    unfolding require_lan_host
    host_known message h = elim (Option-cases (cfg.host_of uuid)) [
      | inl e ↦ cc (rw e at h)
      | inr (host, e) ↦ ground (arith, rw e at h)
    ]

    pub accessed :
        {st : DeviceStateDto}
        → read_state uuid manual (answers_of cfg net log uuid) ≡ ok st
        → (key : String) × (resp : Value) × (require_lan_host cfg uuid ≡ ok st.host)
          × (require_lan_key cfg.cloud_key cfg.env_key ≡ ok key)
          × (net log (request st.host key get_system_all) ≡ ok resp)
          × ((answers_of cfg net log uuid).system_all ≡ ok (system resp))
    accessed {st} h =
        let (key, sys, a, b, c) = read_state-reads uuid (answers_of cfg net log uuid) h in
        let found = host_known "No LAN host known for device uuid. Resolve host first." a in
        elim (Result-cases (net log (request st.host key get_system_all))) [
          | inr (message, e) ↦ cc (rw (found, b, e) at c)
          | inl (resp, e) ↦ (key, resp, found, b, e, rw (found, b, e) refl)
        ]

    pub read_device_state_lem :
        (channel : ℕ) {host key : String} {resp : Value}
        → require_lan_host cfg uuid ≡ ok host
        → require_lan_key cfg.cloud_key cfg.env_key ≡ ok key
        → net log (request host key get_system_all) ≡ ok resp
        → (read_device_state parse_number print_value locale_le cfg net uuid channel log).0
          ≡ response_reply host channel (system resp)
    unfolding read_device_state lan_access or_lan_error follow send
    read_device_state_lem channel {host} {key} {resp} a b c =
        rw (a, or_lan_error, follow, b, c) refl
