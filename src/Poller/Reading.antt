-- ===== src/Poller/Reading.antt =====
-- What a poll reads, in packages/core/src/api/state-poller.ts: the state that a LAN response tells,
-- the state that stands in for it after an error, and the code of the error. What `pollDevice`
-- waits for is the record `Answers`; the response is given as the extractors of
-- packages/core/src/api/shared.ts read it.
use merossity.Prelude.{ℕ, ◌+◌, max, String}
use merossity.Prelude.{Bool, true, false}
use merossity.Prelude.{◌||◌, Option, none, some, List, [], ◌∷◌}
use merossity.Prelude.{ltb, leb, ◌==◌, str_eq, if◌then◌else◌}
use merossity.Prelude.{is_some, get_or, or_else, map_option, length}
use merossity.Prelude.{find}
use merossity.Prelude.Sorting.{sort}
use merossity.Prelude.Results.{Result, ok, err, ◌>>=◌, ◌>>◌, guard}
use merossity.Prelude.Texts.{includes}
use merossity.Poller.Types.{
  LanToggleXChannel, LanLightState, LanScheduleDigestEntry, Kind, togglex, light, mixed, PollReason,
  DeviceStateDto,
}

-- `extractLanToggleX`, `extractLanLight` and the two digests of a response.
pub record SystemAll : Type 0 where
  pub togglex_of : Option (List LanToggleXChannel)
  pub light_of : Option (List LanLightState)
  pub timerx_of : List LanScheduleDigestEntry
  pub triggerx_of : List LanScheduleDigestEntry

pub record Answers : Type 0 where
  pub host_entry : Option String
  pub cloud_key : Option String
  pub env_key : Option String
  pub system_all : Result SystemAll

-- `if (!text) throw new Error(message)`
abbrev pub require_text : Option String → String → Result String
require_text none message = err message
require_text (some t) message = if str_eq t "" then err message else ok t

-- `requireLanKey` of packages/core/src/api/shared.ts.
unfoldable pub require_lan_key : (cloud_key env_key : Option String) → Result String
require_lan_key cloud_key env_key =
    let message : String = "Missing Meross key. Login (cloud) or set MEROSS_KEY." in
    elim (require_text cloud_key message) [ ok key ↦ ok key | err _ ↦ require_text env_key message ]

-- `list.find((e) => e.channel === 0) ?? (list.length ? list[0] : null)`
abbrev pub first_or {ℓ} : {A : Type ℓ} → (A → Bool) → List A → Option A
first_or p [] = none
first_or p (x ∷ xs) = or_else (find p (x ∷ xs)) (some x)

pub record Primary : Type 0 where
  pub kind : Kind
  pub channel : ℕ
  pub onoff : Bool
  pub light : Option LanLightState

-- The light comes first; `none` where there is neither a light nor a channel.
unfoldable pub primary_of : List LanToggleXChannel → List LanLightState → Option Primary
primary_of channels lights =
    let light0 = first_or (λ l. l.channel == 0) lights in
    let ch0 = first_or (λ c. c.channel == 0) channels in
    elim light0 [
      | none ↦
          map_option
            (λ c. record { kind = togglex; channel = c.channel; onoff = c.onoff; light = none }) ch0
      | some l ↦ some (record {
        kind = if is_some ch0 then mixed else light;
        channel = l.channel;
        onoff = l.onoff;
        light = some l;
      })
    ]

unfoldable pub normalize_channels : List LanToggleXChannel → List LanToggleXChannel
normalize_channels channels = sort (λ a b. leb a.channel b.channel) channels

-- `nextUpdatedAt`, and `nextTelemetryUpdatedAt`, given the earlier time.
unfoldable pub next_updated_at : Option ℕ → ℕ → ℕ
next_updated_at none now = now
next_updated_at (some prev) now = max now (prev + 1)

-- The state that a poll reads, but for its time, or the message that it throws.
unfoldable pub read_state : String → PollReason → Answers → Result DeviceStateDto
read_state uuid reason answers = do
  host ← require_text answers.host_entry "No LAN host known for device uuid. Resolve host first."
  key ← require_lan_key answers.cloud_key answers.env_key
  resp ← answers.system_all
  let channels = normalize_channels (get_or resp.togglex_of [])
  let lights = get_or resp.light_of []
  guard (ltb 0 (length channels) || ltb 0 (length lights))
      "Device state not found in Appliance.System.All digest (state unavailable)."
  elim (primary_of channels lights) [
    | none ↦ err "Device state unavailable (no channels)."
    | some p ↦ ok (record {
      uuid = uuid;
      host = host;
      kind = p.kind;
      channel = p.channel;
      onoff = p.onoff;
      channels = channels;
      lights = lights;
      light = p.light;
      timerx_digest = resp.timerx_of;
      triggerx_digest = resp.triggerx_of;
      updated_at = 0;
      source = reason;
      stale = false;
      error = none;
    })
  ]

-- The state that is published after a failure: the last known one, marked as stale.
unfoldable pub stale_state :
    String
    → PollReason
    → String
    → (now : ℕ) → Option DeviceStateDto
    → (known : Option String) → DeviceStateDto
stale_state uuid reason message now none known = record {
  uuid = uuid;
  host = get_or known "";
  kind = togglex;
  channel = 0;
  onoff = false;
  channels = [];
  lights = [];
  light = none;
  timerx_digest = [];
  triggerx_digest = [];
  updated_at = next_updated_at none now;
  source = reason;
  stale = true;
  error = some message;
}
stale_state uuid reason message now (some prev) known = record {
  uuid = uuid;
  host = prev.host;
  kind = prev.kind;
  channel = prev.channel;
  onoff = prev.onoff;
  channels = prev.channels;
  lights = prev.lights;
  light = prev.light;
  timerx_digest = prev.timerx_digest;
  triggerx_digest = prev.triggerx_digest;
  updated_at = next_updated_at (some prev.updated_at) now;
  source = reason;
  stale = true;
  error = some message;
}

-- `pollCodeFromError`, given the message in lower case.
unfoldable pub poll_code_from_error : String → String
unfolding includes
poll_code_from_error m =
    if includes m "missing meross key"
    then "missing_key"
    else if includes m "no lan host known"
    then "host_unavailable"
    else if includes m "state unavailable"
        || includes m "togglex state not found"
        || includes m "device state not found"
    then "state_unavailable"
    else "lan_error"
