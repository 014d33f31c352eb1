-- ===== src/Api/States.antt =====
-- The handlers of packages/core/src/api that read the state of a device: get-device-state.ts, which
-- asks the poller where there is one and the device where there is none, and get-device-states.ts.
-- What `poller.pollNow` answers is an argument. A response of a device is read by the extractors.
pub mod Agreement
pub mod Shown
pub mod Polled
use merossity.Prelude.{ℕ, zero, suc, ◌+◌, ◌-◌, ◌*◌, ◌/◌, ◌%◌, ◌^◌, ◌≤◌, ◌<◌, min, max, String}
use merossity.Prelude.{◌≡◌, refl, sym, ap, ◌∙◌, ◌≢◌, ◌↔◌, ◌⊎◌, inl, inr, Bool, true, false, not}
use merossity.Prelude.{
  ◌&&◌, ◌||◌, Option, none, some, List, [], ◌∷◌, ◌++◌, map, arith, eq_iff, eq_refl,
}
use merossity.Prelude.{ltb, leb, ◌==◌, str_eq, if◌then◌else◌, ltb→lt, lt→ltb, leb→le, ==_iff, tests}
use merossity.Prelude.{
  Bool-cases, Option-cases, is_some, get_or, or_else, map_option, length, get_elem?,
}
use merossity.Prelude.{take, drop, find, any, all, keep, All, All-append, All-take, All-keep}
use merossity.Prelude.Results.{ok, err}
use merossity.Prelude.Integers.{pos}
use merossity.Prelude.Texts.{trim}
use merossity.Json.{Number, finite, Value, Items, nil, cons, array, get, text}
use merossity.Poller.Types.{
  LanToggleXChannel, LanLightState, LanScheduleDigestEntry, Kind, togglex, light, mixed,
  DeviceStateDto, PollErrorDto, PollReason, poller, manual,
}
use merossity.Poller.Reading.{SystemAll, first_or}
use merossity.Poller.Digest.Least.{system_all_of}
use merossity.Poller.Digest.{to_number}
use merossity.Api.Client.{
  get_system_all, request, LanConfig, Network, Handler, Reply, done, refused, ◌>>=◌, ◌>>◌, reply,
  answer, send, lan_access, refuse_if, to_text, is_undefined,
}
use merossity.Api.Switching.{channel_of}

-- What `pollNow` answers.
pub record PollNowResult : Type 0 where
  pub polled_at : ℕ
  pub states : List DeviceStateDto
  pub errors : List PollErrorDto

-- The body of the answer of get-device-state.ts.
pub record StateReply : Type 0 where
  pub host : String
  pub kind : Kind
  pub channel : ℕ
  pub onoff : Bool
  pub channels : List LanToggleXChannel
  pub lights : List LanLightState
  pub light : Option LanLightState
  pub timerx_digest : List LanScheduleDigestEntry
  pub triggerx_digest : List LanScheduleDigestEntry

-- `lightMatch ?? toggleMatch ?? null`, of which only the channel and its state are used.
unfoldable pub match_of :
    (channel : ℕ) → List LanLightState → List LanToggleXChannel → Option LanToggleXChannel
match_of channel lights channels =
    or_else
      (map_option (λ l. record { channel = l.channel; onoff = l.onoff })
        (find (λ l. l.channel == channel) lights))
      (find (λ t. t.channel == channel) channels)

-- The state of a poll, seen on a channel.
unfoldable pub state_reply : (channel : ℕ) → DeviceStateDto → Reply StateReply
state_reply channel s = elim (match_of channel s.lights s.channels) [
  | none ↦ refused "state_unavailable" "Channel not found"
  | some m ↦ done (record {
    host = s.host;
    kind = s.kind;
    channel = m.channel;
    onoff = m.onoff;
    channels = s.channels;
    lights = s.lights;
    light = s.light;
    timerx_digest = s.timerx_digest;
    triggerx_digest = s.triggerx_digest;
  })
]

unfoldable pub poll_reply : (uuid : String) (channel : ℕ) → PollNowResult → Reply StateReply
poll_reply uuid channel result = elim (find (λ e. str_eq e.uuid uuid) result.errors) [
  | some failed ↦ refused failed.code failed.message
  | none ↦ elim (find (λ s. str_eq s.uuid uuid) result.states) [
    | none ↦ refused "state_unavailable" "State unavailable"
    | some s ↦ state_reply channel s
  ]
]

abbrev pub kind_of : Option LanLightState → Option LanToggleXChannel → Kind
kind_of (some l) (some c) = mixed
kind_of (some l) none = light
kind_of none c = togglex

-- What a response tells of a channel.
unfoldable pub response_reply : (host : String) (channel : ℕ) → SystemAll → Reply StateReply
response_reply host channel resp =
    let channels = get_or resp.togglex_of [] in
    let lights = get_or resp.light_of [] in
    let light0 = first_or (λ l. l.channel == 0) lights in
    let ch0 = first_or (λ c. c.channel == 0) channels in
    elim (match_of channel lights channels) [
      | none ↦ refused "state_unavailable" "State not found in Appliance.System.All digest"
      | some m ↦ done (record {
        host = host;
        kind = kind_of light0 ch0;
        channel = m.channel;
        onoff = m.onoff;
        channels = channels;
        lights = lights;
        light = light0;
        timerx_digest = resp.timerx_of;
        triggerx_digest = resp.triggerx_of;
      })
    ]

module _ (parse_number : Value → Number) (print_value : Value → String)
    (locale_le : String → String → Bool) where
  -- The `try` block.
  unfoldable pub read_device_state :
      LanConfig → Network → (uuid : String) (channel : ℕ) → Handler StateReply
  read_device_state cfg net uuid channel = do
    (host, key) ← lan_access cfg uuid
    resp ← send net (request host key get_system_all)
    answer (response_reply host channel (system_all_of parse_number print_value locale_le resp))

  -- `poll` is what `poller.pollNow` answers for a uuid, where there is a poller.
  unfoldable pub get_device_state :
      LanConfig
      → Network
      → (poll : Option (String → PollNowResult)) (body : Value) → Handler StateReply
  get_device_state cfg net poll body = do
    let uuid = to_text print_value (get "uuid" body)
    refuse_if (str_eq uuid "") "missing_uuid" "Missing uuid"
    channel ← answer (channel_of parse_number print_value (get "channel" body))
    elim poll [
      | some poll_now ↦ answer (poll_reply uuid channel (poll_now uuid))
      | none ↦ read_device_state cfg net uuid channel
    ]

-- `uuidsRaw.map((v) => String(v ?? '')).filter(Boolean)`
unfoldable pub texts_in : (print_value : Value → String) → Items → List String
texts_in print_value nil = []
texts_in print_value (cons v items) =
    let t = to_text print_value v in
    let rest = texts_in print_value items in if str_eq t "" then rest else t ∷ rest

abbrev uuids_in : (print_value : Value → String) → Value → Option (List String)
uuids_in print_value (array items) = some (texts_in print_value items)
uuids_in print_value _ = none

abbrev reason_in : Value → PollReason
reason_in (text t) = if str_eq t "poller" then poller else manual
reason_in _ = manual

-- A time that is given is finite and greater than 0.
abbrev pub timeout_in : (parse_number : Value → Number) → Value → Reply (Option Number)
timeout_in parse_number v = elim (is_undefined v) [
  | true ↦ done none
  | false ↦ elim (to_number parse_number v) [
    | finite (pos (suc z)) ↦ done (some (finite (pos (suc z))))
    | _ ↦ refused "invalid_timeout" "Invalid timeoutMs"
  ]
]

-- `poll_now` is `poller.pollNow`, given the uuids, the reason and the time.
unfoldable pub get_device_states :
    (parse_number : Value → Number) (print_value : Value → String)
    (poll_now : Option (List String) → PollReason → Option Number → PollNowResult) (body : Value)
    → Handler PollNowResult
get_device_states parse_number print_value poll_now body = do
  let uuids = uuids_in print_value (get "uuids" body)
  refuse_if (any (λ u. str_eq (trim u) "") (get_or uuids [])) "invalid_uuids" "Invalid uuids"
  timeout ← answer (timeout_in parse_number (get "timeoutMs" body))
  reply (
      poll_now (map_option (λ us. keep (λ u. not (str_eq u "")) (map trim us)) uuids)
        (reason_in (get "reason" body)) timeout)
