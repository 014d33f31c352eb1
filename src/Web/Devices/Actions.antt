-- ===== src/Web/Devices/Actions.antt =====
-- The actions and guards of apps/web/src/state/devicesMachine.ts. `Date.now()` is an argument.
use merossity.Prelude.{String}
use merossity.Prelude.{Bool, true, false, not}
use merossity.Prelude.{◌||◌, Option, none, some, List, [], ◌∷◌, map}
use merossity.Prelude.{ltb, ◌==◌, str_eq, if◌then◌else◌}
use merossity.Prelude.{is_some, get_or, or_else, map_option, length}
use merossity.Prelude.{find, any}
use merossity.Prelude.Integers.{ℤ, pos}
use merossity.Prelude.Maps.{Map, lookup, insert, delete}
use merossity.Prelude.Texts.{trim}
use merossity.Poller.Types.{LanToggleXChannel, LanLightState}
use merossity.Web.Devices.Types.{
  HostEntry, DeviceState, DevicePower, StreamDeviceState, DevicesContext, Effect, post_network_cidr,
  post_device_states,
}

abbrev pub set_cidr_if_empty : Option String → DevicesContext → DevicesContext
set_cidr_if_empty suggested c =
    if not (str_eq (trim c.cidr) "") then c else record c { cidr = get_or suggested "" }

abbrev pub persist_cidr_remote : String → List Effect
persist_cidr_remote cidr = if str_eq (trim cidr) "" then [] else post_network_cidr (trim cidr) ∷ []

abbrev pub request_device_refresh : String → List Effect
request_device_refresh uuid = if str_eq uuid "" then [] else post_device_states uuid ∷ []

-- `a || b` for texts that may be missing, `''` at the end.
abbrev pub first_text : Option String → Option String → String
first_text none b = get_or b ""
first_text (some a) b = if str_eq a "" then get_or b "" else a

-- `channels` with channel 0 set to `onoff`, put in front if it is not there.
unfoldable pub toggled_channels : List LanToggleXChannel → Bool → List LanToggleXChannel
toggled_channels base onoff =
    if any (λ c. c.channel == 0) base
    then map (λ c. if c.channel == 0 then record c { onoff = onoff } else c) base
    else record { channel = 0; onoff = onoff } ∷ base

unfoldable pub toggled_lights :
    (previous : Option LanLightState)
    → (base : List LanLightState) → (was onoff : Bool) → Option (List LanLightState)
toggled_lights previous base was onoff =
    let light0 = or_else previous (find (λ l. l.channel == 0) base) in
    let fresh : LanLightState = record {
      channel = 0;
      onoff = was;
      luminance = none;
      temperature = none;
      rgb = none;
    } in
    let lights : List LanLightState =
      if any (λ l. l.channel == 0) base
      then map (λ l. if l.channel == 0 then record l { onoff = onoff } else l) base
      else record (get_or light0 fresh) { onoff = onoff } ∷ base in
    if is_some light0 || ltb 0 (length base) then some lights else none

-- The state that is shown while the toggle is under way.
unfoldable pub optimistic_state :
    (previous : Option DeviceState) → (entry : Option HostEntry) → Bool → (now : ℤ) → DeviceState
optimistic_state previous entry onoff now =
    let previous_light : Option LanLightState = elim previous [ none ↦ none | some p ↦ p.light ] in
    let base_channels : List LanToggleXChannel = elim previous [
      | none ↦ []
      | some p ↦ get_or p.channels []
    ] in
    let base_lights : List LanLightState = elim previous [
      | none ↦ []
      | some p ↦ get_or p.lights []
    ] in
    let was = get_or (map_option (λ p. p.onoff) previous) false in
    let lights = toggled_lights previous_light base_lights was onoff in
    record {
      host = first_text (map_option (λ p. p.host) previous) (map_option (λ h. h.host) entry);
      kind = elim previous [ none ↦ none | some p ↦ p.kind ];
      channel = get_or (map_option (λ p. p.channel) previous) 0;
      onoff = onoff;
      channels = some (toggled_channels base_channels onoff);
      lights = lights;
      light = elim lights [ none ↦ previous_light | some ls ↦ find (λ l. l.channel == 0) ls ];
      timerx_digest = elim previous [ none ↦ none | some p ↦ p.timerx_digest ];
      triggerx_digest = elim previous [ none ↦ none | some p ↦ p.triggerx_digest ];
      updated_at = now;
      stale = some false;
      source = some "optimistic";
      error = none;
    }

unfoldable pub prepare_optimistic_toggle :
    String → Bool → (now : ℤ) → DevicesContext → DevicesContext
prepare_optimistic_toggle uuid onoff now c =
    let previous = lookup uuid c.device_states in
    record c {
      toggle_rollback = some (record { uuid = uuid; previous = previous });
      device_states =
          insert uuid (optimistic_state previous (lookup uuid c.hosts) onoff now) c.device_states;
    }

unfoldable pub rollback_optimistic_toggle : DevicesContext → DevicesContext
rollback_optimistic_toggle c = elim c.toggle_rollback [
  | none ↦ c
  | some r ↦ record c {
    device_states = elim r.previous [
      | none ↦ delete r.uuid c.device_states
      | some p ↦ insert r.uuid p c.device_states
    ];
    toggle_rollback = none;
  }
]

-- `{ ...(error ? { error } : {}) }`
abbrev non_empty_error : Option String → Option String
non_empty_error none = none
non_empty_error (some e) = if str_eq e "" then none else some e

unfoldable pub shown_state : StreamDeviceState → DeviceState
shown_state s = record {
  host = s.host;
  kind = s.kind;
  channel = s.channel;
  onoff = s.onoff;
  channels = s.channels;
  lights = s.lights;
  light = s.light;
  timerx_digest = s.timerx_digest;
  triggerx_digest = s.triggerx_digest;
  updated_at = s.updated_at;
  stale = some s.stale;
  source = s.source;
  error = non_empty_error s.error;
}

unfoldable pub set_stream_device_state : StreamDeviceState → DevicesContext → DevicesContext
set_stream_device_state s c = record c {
  device_states = insert s.uuid (shown_state s) c.device_states;
}

merge_states : List StreamDeviceState → Map DeviceState → Map DeviceState
merge_states [] next = next
merge_states (s ∷ states) next = merge_states states (insert s.uuid (shown_state s) next)

unfoldable pub merge_snapshot : List StreamDeviceState → DevicesContext → DevicesContext
unfolding merge_states
merge_snapshot states c = record c { device_states = merge_states states c.device_states }

merge_readings : List DevicePower → Map DevicePower → Map DevicePower
merge_readings [] next = next
merge_readings (r ∷ readings) next = merge_readings readings (insert r.uuid r next)

unfoldable pub merge_power_snapshot : List DevicePower → DevicesContext → DevicesContext
unfolding merge_readings
merge_power_snapshot readings c = record c { device_power = merge_readings readings c.device_power }

unfoldable pub set_power_reading : DevicePower → DevicesContext → DevicesContext
set_power_reading r c = record c { device_power = insert r.uuid r c.device_power }

abbrev pub no_state : DeviceState
no_state = record {
  host = "";
  kind = none;
  channel = 0;
  onoff = false;
  channels = none;
  lights = none;
  light = none;
  timerx_digest = none;
  triggerx_digest = none;
  updated_at = pos 0;
  stale = none;
  source = none;
  error = none;
}

unfoldable pub set_device_error : String → (error : String) → DevicesContext → DevicesContext
set_device_error uuid error c =
    let shown = get_or (lookup uuid c.device_states) no_state in
    record c {
      device_states =
          insert uuid (record shown { stale = some true; error = some error }) c.device_states;
    }

abbrev pub needs_cidr_suggest : DevicesContext → Bool
needs_cidr_suggest c = str_eq (trim c.cidr) ""

unfoldable pub has_host : String → DevicesContext → Bool
has_host uuid c = elim (lookup uuid c.hosts) [ none ↦ false | some h ↦ not (str_eq h.host "") ]
