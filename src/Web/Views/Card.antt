-- ===== src/Web/Views/Card.antt =====
-- apps/web/src/views/devices/DeviceCard.tsx: what a card shows of its device, and its dialog with
-- tabs. JavaScript gives the upper and the lower case of a text.
pub mod Tabs
use merossity.Prelude.{ℕ, zero, suc, ◌+◌, ◌-◌, ◌*◌, ◌/◌, ◌%◌, ◌^◌, ◌≤◌, ◌<◌, min, max, String}
use merossity.Prelude.{◌≡◌, refl, sym, ap, ◌∙◌, ◌≢◌, ◌↔◌, ◌⊎◌, inl, inr, Bool, true, false, not}
use merossity.Prelude.{
  ◌&&◌, ◌||◌, Option, none, some, List, [], ◌∷◌, ◌++◌, map, arith, eq_iff, eq_refl,
}
use merossity.Prelude.{ltb, leb, ◌==◌, str_eq, if◌then◌else◌, ltb→lt, lt→ltb, leb→le, ==_iff, tests}
use merossity.Prelude.{
  Bool-cases, Option-cases, is_some, get_or, or_else, map_option, length, get_elem?,
}
use merossity.Prelude.{take, drop, find, any, all, keep, All, All-append, All-take, All-keep}
use Prim.Native.String.{◌++◌ as append_text}
use merossity.Prelude.Texts.{trim, starts_with, includes}
use merossity.Poller.Types.{LanToggleXChannel, LanLightState}
use merossity.Web.Devices.Types.{MerossCloudDevice, DeviceState, HostEntry}

pub data ManageTab : Type 0 where
  color power schedules diagnostics : ManageTab

-- The name of a tab.
abbrev pub tab_key : ManageTab → String
tab_key color = "color"
tab_key power = "power"
tab_key schedules = "schedules"
tab_key diagnostics = "diagnostics"

abbrev pub same_tab : ManageTab → ManageTab → Bool
same_tab a b = str_eq (tab_key a) (tab_key b)

-- `String(d.deviceType ?? '')`
abbrev type_text : MerossCloudDevice → String
type_text d = get_or d.device_type ""

abbrev type_key : MerossCloudDevice → String
type_key d = append_text (type_text d) (append_text " " (get_or d.sub_type ""))

unfoldable pub friendly_device_type_from_model :
    (upper_case : String → String) → (model : String) → String
friendly_device_type_from_model upper_case model =
    let m = upper_case (trim model) in
    if str_eq m ""
    then ""
    else if starts_with m "MSS"
    then "Smart Wi-Fi Plug"
    else if starts_with m "MSL"
    then "Smart Wi-Fi Light"
    else if starts_with m "MSP"
    then "Smart Power Strip"
    else if starts_with m "MTS"
    then "Smart Thermostat"
    else if starts_with m "MSH"
    then "Smart Sensor"
    else if starts_with m "MSG"
    then "Smart Garage Opener"
    else if starts_with m "MRS"
    then "Smart Roller Shutter"
    else ""

unfoldable pub prefers_toggle_for : (lower_case : String → String) → MerossCloudDevice → Bool
prefers_toggle_for lower_case d =
    let key = lower_case (type_key d) in
    includes key "msl" || includes key "mss" || includes key "light" || includes key "switch"

unfoldable pub is_plug_like : (upper_case : String → String) → MerossCloudDevice → Bool
is_plug_like upper_case d =
    let m = upper_case (trim (trim (type_text d))) in
    let key = upper_case (type_key d) in
    if starts_with m "MSS" || starts_with m "MSP"
    then true
    else includes key "MSS" || includes key "MSP" || includes key "PLUG" || includes key "STRIP"

-- `deviceState?.light ?? deviceState?.lights?.find((l) => l.channel === 0) ?? null`
abbrev shown_light : Option DeviceState → Option LanLightState
shown_light none = none
shown_light (some s) = or_else s.light (find (λ l. l.channel == 0) (get_or s.lights []))

-- The channel 0, or else the state that is told of the device.
abbrev shown_channel : Option DeviceState → Option LanToggleXChannel
shown_channel none = none
shown_channel (some s) =
    or_else (find (λ c. c.channel == 0) (get_or s.channels []))
      (some (record { channel = 0; onoff = s.onoff }))

-- Whether the device is on; `none` where it is not known.
unfoldable pub lan_on : Option DeviceState → Option Bool
lan_on s =
    or_else (map_option (λ l. l.onoff) (shown_light s))
      (map_option (λ c. c.onoff) (shown_channel s))

abbrev has_lights : Option DeviceState → Bool
has_lights none = false
has_lights (some s) =
    let kind = get_or s.kind "" in
    str_eq kind "light" || str_eq kind "mixed" || ltb 0 (length (get_or s.lights []))

unfoldable pub is_smart_light :
    (upper_case : String → String) → MerossCloudDevice → Option DeviceState → Bool
is_smart_light upper_case d s = starts_with (upper_case (trim (type_text d))) "MSL" || has_lights s

-- What the card makes of its device.
pub record CardView : Type 0 where
  pub ready : Bool
  pub smart_light : Bool
  pub plug_like : Bool
  pub on : Option Bool
  pub togglable : Bool
  pub toggle_disabled : Bool

unfoldable pub card_view :
    (upper_case lower_case : String → String)
    → MerossCloudDevice
    → Option HostEntry
    → Option DeviceState
    → (is_toggling : Bool) → CardView
card_view upper_case lower_case d entry s is_toggling =
    let ready = not (str_eq (get_or (map_option (λ h. h.host) entry) "") "") in
    record {
      ready = ready;
      smart_light = is_smart_light upper_case d s;
      plug_like = is_plug_like upper_case d;
      on = lan_on s;
      togglable = ready && prefers_toggle_for lower_case d;
      toggle_disabled = not ready || is_toggling;
    }

unfoldable pub available_tabs : CardView → List ManageTab
available_tabs v =
    let common = schedules ∷ diagnostics ∷ [] in
    let plug = if v.plug_like then power ∷ common else common in
    if v.smart_light then color ∷ plug else plug

abbrev pub has_tab : ManageTab → List ManageTab → Bool
has_tab t tabs = any (λ u. same_tab u t) tabs

abbrev pub first_tab : List ManageTab → ManageTab
first_tab [] = diagnostics
first_tab (t ∷ tabs) = t

unfoldable pub coerce_tab : CardView → (key : String) → ManageTab
coerce_tab v key =
    if str_eq key "color"
    then color
    else if str_eq key "power"
    then power
    else if str_eq key "schedules"
    then schedules
    else if str_eq key "diagnostics"
    then diagnostics
    else if has_tab diagnostics (available_tabs v)
    then diagnostics
    else first_tab (available_tabs v)

unfoldable pub normalize_tab : CardView → ManageTab → ManageTab
normalize_tab v t = if has_tab t (available_tabs v) then t else first_tab (available_tabs v)

-- What a tab asks for.
pub data CardRequest : Type 0 where
  request_refresh power_history list_timer_x list_trigger_x fetch_diagnostics close_system_dump :
      CardRequest

-- `refreshDiagnostics`
abbrev refresh_diagnostics : CardView → List CardRequest
refresh_diagnostics v = if v.ready then request_refresh ∷ fetch_diagnostics ∷ [] else []

unfoldable pub start_fetch_for_tab : CardView → ManageTab → List CardRequest
start_fetch_for_tab v color = if v.ready then request_refresh ∷ [] else []
start_fetch_for_tab v power = if v.ready && v.plug_like then power_history ∷ [] else []
start_fetch_for_tab v schedules = if v.ready then list_timer_x ∷ list_trigger_x ∷ [] else []
start_fetch_for_tab v diagnostics = refresh_diagnostics v

pub record Manage : Type 0 where
  pub is_open : Bool
  pub tab : ManageTab

abbrev pub initial_manage : Manage
initial_manage = record { is_open = false; tab = diagnostics }

-- What happens to the dialog. The timer editor and the errors of the panes, which go when it is
-- closed, are not part of it.
pub data ManageEvent : Type 0 where
  open_manage : ManageTab → ManageEvent
  open_changed : Bool → ManageEvent
  selection_changed : (key : String) → ManageEvent

abbrev show_tab : CardView → Manage → ManageTab → Manage × List CardRequest
show_tab v m t = (record m { tab = t }, start_fetch_for_tab v t)

unfoldable pub manage_step : CardView → ManageEvent → Manage → Manage × List CardRequest
manage_step v (open_manage desired) m =
    show_tab v (record m { is_open = true }) (normalize_tab v desired)
manage_step v (open_changed false) m = (record m { is_open = false }, close_system_dump ∷ [])
manage_step v (open_changed true) m =
    show_tab v (record m { is_open = true }) (normalize_tab v m.tab)
manage_step v (selection_changed key) m = show_tab v m (normalize_tab v (coerce_tab v key))
