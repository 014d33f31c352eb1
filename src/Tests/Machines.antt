-- ===== src/Tests/Machines.antt =====
-- Runs of the machines of apps/web/src/state.
use merossity.Prelude.{◌≡◌, refl, ◌≢◌, ◌⊎◌, inr, true, false}
use merossity.Prelude.{none, some, List, [], ◌∷◌}
use merossity.Prelude.{All}
use merossity.Prelude.Integers.{pos}
use merossity.Prelude.Maps.{lookup}
use merossity.Poller.Types.{LanToggleXChannel}
use merossity.Web.Devices.Types.{
  device_toggle, toggle_device_error, monitor_stream_connected, DevicesContext, DeviceState,
  StreamDeviceState, monitor_state_received, monitor_request_refresh, post_device_states,
}
use merossity.Web.Devices.Actions.{
  prepare_optimistic_toggle, rollback_optimistic_toggle, no_state, has_host,
}
use merossity.Web.Devices.Machine.{
  Inventory, Operations, toggling, live, Devices, initial, step, run,
}
use merossity.Web.Devices.Invariant.{IsConsistent, reached-IsConsistent}
use merossity.Web.Devices.Exclusion.{is_answer, toggle_error_restores, answer_ends, busy_ignores}
use merossity.Web.Devices.Toggle.{rollback-prepare}
use merossity.Web.Auth.{
  auto, AuthEvent, set_email, set_password, set_totp, submit, login_done, editing, Auth, run_auth,
}
use merossity.Web.Auth.Invariant.{IsCleared, IsChecked, run_auth-safe}

abbrev lamp : DeviceState
lamp = record no_state { host = "10.0.0.5"; onoff = true }

-- A lamp that is being toggled.
abbrev busy_context : DevicesContext
busy_context = record {
  devices = [];
  hosts = ("lamp", record { host = "10.0.0.5"; updated_at = "now"; mac = none }) ∷ [];
  cidr = "10.0.0.0/24";
  device_states = ("lamp", record lamp { onoff = false }) ∷ [];
  device_power = [];
  system_dump = none;
  active_device_uuid = some "lamp";
  toggle_rollback = some (record { uuid = "lamp"; previous = some lamp });
}

abbrev busy_devices : Devices
busy_devices = record {
  inventory = Inventory.idle;
  operations = toggling;
  monitor = live;
  context = busy_context;
}

toggling-busy : toggling ≢ Operations.idle
toggling-busy = λ e. cc

reached-IsConsistent_example : IsConsistent (
    run
      (initial "10.0.0.0/24").0
      ((pos 1, monitor_stream_connected) ∷ (pos 2, device_toggle "lamp" true) ∷ []))
reached-IsConsistent_example =
    reached-IsConsistent "10.0.0.0/24"
      ((pos 1, monitor_stream_connected) ∷ (pos 2, device_toggle "lamp" true) ∷ [])

-- A lamp that is off, and what the stream tells of it while it is toggled.
abbrev idle_devices : Devices
idle_devices = record busy_devices {
  operations = Operations.idle;
  context = record busy_context { active_device_uuid = none; toggle_rollback = none };
}

abbrev reported : StreamDeviceState
reported = record {
  uuid = "lamp";
  host = "10.0.0.9";
  kind = none;
  channel = 0;
  onoff = true;
  channels = none;
  lights = none;
  light = none;
  timerx_digest = none;
  triggerx_digest = none;
  updated_at = pos 2;
  stale = false;
  source = none;
  error = none;
}

toggle_error_restores_example :
    let begun = (step (pos 1) idle_devices (device_toggle "lamp" true)).0 in
    let before = run begun ((pos 2, monitor_state_received reported) ∷ []) in
    lookup "lamp" (step (pos 3) before (toggle_device_error "timeout")).0.context.device_states
    ≡ some (record lamp { onoff = false; stale = some true; error = some "timeout" })
unfolding has_host lookup
toggle_error_restores_example =
    toggle_error_restores (pos 1) (pos 3) idle_devices "lamp" true
      ((pos 2, monitor_state_received reported) ∷ []) "timeout" "lamp" refl refl (refl, tt)

answer_ends_example :
    ((is_answer toggling (toggle_device_error "timeout") ≡ true)
      × ((step (pos 3) busy_devices (toggle_device_error "timeout")).0.operations ≡ Operations.idle)
      × ((step (pos 3) busy_devices (toggle_device_error "timeout")).0.context.active_device_uuid
          ≡ none))
    ⊎ ((is_answer toggling (toggle_device_error "timeout") ≡ false)
        × ((step (pos 3) busy_devices (toggle_device_error "timeout")).0.operations ≡ toggling))
answer_ends_example = answer_ends (pos 3) busy_devices (toggle_device_error "timeout") toggling-busy

busy_ignores_example :
    (step (pos 3) busy_devices (device_toggle "lamp" true) ≡ (busy_devices, []))
    × (step (pos 3) busy_devices (monitor_request_refresh "lamp")
        ≡ (busy_devices, post_device_states "lamp" ∷ []))
busy_ignores_example =
    busy_ignores (pos 3) busy_devices (device_toggle "lamp" true) "lamp" toggling-busy refl

rollback-prepare_example :
    let c' =
      rollback_optimistic_toggle (prepare_optimistic_toggle "lamp" true (pos 4) busy_context) in
    (lookup "lamp" c'.device_states ≡ lookup "lamp" busy_context.device_states)
    × (c'.toggle_rollback ≡ none)
rollback-prepare_example = rollback-prepare "lamp" true (pos 4) busy_context "lamp"

abbrev two_channels : List LanToggleXChannel
two_channels = record { channel = 1; onoff = true } ∷ record { channel = 0; onoff = true } ∷ []

abbrev empty_form : Auth
empty_form = record {
  state = editing;
  context = record {
    email = "";
    password = "";
    totp = "";
    region = auto;
    cloud = none;
    error = none;
  };
}

abbrev filled : List AuthEvent
filled =
    set_email "a@b.c" ∷ set_password "secret" ∷ set_totp "123456" ∷ submit ∷ login_done none ∷ []

empty_form-IsCleared : IsCleared empty_form
empty_form-IsCleared = inr (refl, refl)

run_auth-safe_example :
    IsCleared (run_auth empty_form filled).0 × All IsChecked (run_auth empty_form filled).1
run_auth-safe_example = run_auth-safe empty_form filled empty_form-IsCleared
