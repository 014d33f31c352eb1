-- ===== src/Tests/Views.antt =====
-- The controls of a light, the tabs of a card and a new timer.
use merossity.Prelude.{ℕ, ◌-◌, ◌*◌, String}
use merossity.Prelude.{◌≡◌, refl, ◌≢◌, Bool, true, false}
use merossity.Prelude.{none, some, List, [], ◌∷◌, arith, eq_iff}
use merossity.Prelude.{str_eq, if◌then◌else◌}
use merossity.Prelude.Integers.{pos, negsuc}
use merossity.Prelude.Results.{ok}
use merossity.Prelude.Texts.{trim}
use merossity.Json.{Number, Value, nan, number, finite, text, object, Fields, round, unit}
use merossity.Poller.Reading.{require_lan_key}
use merossity.Api.Client.{
  request, poll_device, set_timer_x, set_light, LightFields, LanConfig, Network, done,
  require_lan_host,
}
use merossity.Api.Schedules.{timer_of}
use merossity.Api.Switching.{set_device_light, set_device_timer_x}
use merossity.Web.Views.Lights.{Patch, send_light_body, clamp_round, clamp}
use merossity.Web.Views.Lights.Sent.{set_device_light-send_light_body}
use merossity.Web.Views.Lights.Drafts.{
  Controls, ControlsEvent, lum_told, temp_released, dim_pressed, colour,
}
use merossity.Web.Views.Card.{
  CardView, power, schedules, initial_manage, manage_step, open_manage, list_timer_x,
  list_trigger_x, normalize_tab, available_tabs, start_fetch_for_tab,
}
use merossity.Web.Views.Timers.{TimerEditor, create, edit, new_editor, edit_timer}
use merossity.Web.Views.Timers.Saved.{edit-set_device_timer_x, set_body}

-- The texts and numbers 0 and -1.
abbrev read_small : Value → Number
read_small (text t) = if str_eq t "0" then finite (pos 0) else finite (negsuc (unit - 1))
read_small _ = nan

abbrev print_small : Value → String
print_small (number (finite (pos n))) = "0"
print_small (number (finite (negsuc n))) = "-1"
print_small _ = ""

abbrev any_order : String → String → Bool
any_order a b = true

abbrev home : LanConfig
home = record {
  polls = true;
  host_of = λ uuid. some "10.0.0.8";
  cloud_key = some "key";
  env_key = none;
}

abbrev willing : Network
willing log a = ok (text "yes")

has_home : require_lan_host home "u" ≡ ok "10.0.0.8"
unfolding require_lan_host
has_home = refl

has_key : require_lan_key (some "key") none ≡ ok "key"
unfolding require_lan_key
has_key = refl

named : ◌≢◌ {A = String} "u" ""
named e = ground (arith, eq_iff "u" "")

t9_named : ◌≢◌ {A = String} "t9" ""
t9_named e = ground (arith, eq_iff "t9" "")

abbrev too_bright : Patch
too_bright = record { luminance = some (pos (120 * unit)); temperature = none; rgb = none }

abbrev full_light : LightFields
full_light = record {
  channel = 0;
  onoff = some true;
  luminance = some (clamp_round (pos (120 * unit)) 100);
  temperature = none;
  rgb = none;
}

clamped-light : clamp_round (pos (120 * unit)) 100 ≡ 100
unfolding clamp_round clamp round
clamped-light = refl

set_device_light-send_light_body_example :
    set_device_light read_small print_small home willing (send_light_body "u" too_bright) [] ≡ (
      done (record { host = "10.0.0.8"; channel = 0; resp = text "yes" }),
      request "10.0.0.8" "key" (set_light full_light) ∷ poll_device "u" ∷ [],
    )
set_device_light-send_light_body_example =
    set_device_light-send_light_body read_small print_small home willing "u" too_bright [] named
      has_home has_key refl

-- The brightness is dragged at 30 while the device tells another and the temperature is set.
abbrev dragged : Controls ℕ (λ n. n) some
dragged = record {
  mode = colour;
  draft_lum = pos 30;
  draft_temp = pos 50;
  draft_color = 0;
  dragging_lum = true;
  dragging_temp = true;
  dragging_color = false;
  busy = false;
}

abbrev meanwhile : List (ControlsEvent ℕ (λ n. n) some)
meanwhile = lum_told 80 ∷ temp_released (pos 60) ∷ dim_pressed ∷ []

-- A light has no power tab: its card opens on the first tab that it has.
abbrev plain_card : CardView
plain_card = record {
  ready = true;
  smart_light = false;
  plug_like = false;
  on = none;
  togglable = false;
  toggle_disabled = false;
}

opens-schedules :
    manage_step plain_card (open_manage power) initial_manage
    ≡ (record { is_open = true; tab = schedules }, list_timer_x ∷ list_trigger_x ∷ [])
unfolding manage_step normalize_tab available_tabs start_fetch_for_tab
opens-schedules = refl

abbrev fresh : TimerEditor
fresh = record {
  mode = create;
  id = "t9";
  alias = "";
  channel = "0";
  enable = true;
  type = "0";
  week = "0";
  time = "-1";
  sun_offset = "0";
  duration = "0";
  toggle_onoff = true;
}

fresh-new : new_editor "t9" ≡ fresh
unfolding new_editor
fresh-new = refl

edit-set_device_timer_x_example :
    (rule : Fields) × (set_device_timer_x read_small print_small home willing
        (set_body read_small print_small any_order "u" fresh)
        []
      ≡ (
        done (record { host = "10.0.0.8"; id = "t9"; resp = text "yes" }),
        request "10.0.0.8" "key" (set_timer_x (object rule)) ∷ poll_device "u" ∷ [],
      ))
    × (edit_timer read_small print_small (timer_of read_small print_small any_order rule)
        ≡ record fresh { mode = edit })
unfolding trim round
edit-set_device_timer_x_example =
    edit-set_device_timer_x read_small print_small any_order home willing "u" fresh [] named
      t9_named
      (
        refl,
        (pos 0, refl, refl, refl),
        (pos 0, refl, refl, refl),
        (pos 0, refl, refl, refl),
        (negsuc (unit - 1), refl, refl, refl),
        (pos 0, refl, refl, refl),
        (pos 0, refl, refl, refl),
      )
      has_home has_key refl
