-- ===== src/Web/Devices/Exclusion.antt =====
-- One operation at a time, and how each ends, in apps/web/src/state/devicesMachine.ts.
use merossity.Prelude.{String}
use merossity.Prelude.{◌≡◌, ◌≢◌, ◌⊎◌, Bool, true, false}
use merossity.Prelude.{All}
use merossity.Prelude.{Option, none, some, List, [], ◌∷◌, arith, eq_iff}
use merossity.Prelude.{str_eq, if◌then◌else◌}
use merossity.Prelude.{get_or}
use merossity.Prelude.Integers.{ℤ}
use merossity.Prelude.Maps.{
  lookup, insert, delete, lookup-insert, lookup-insert_self, lookup-delete,
}
use merossity.Web.Devices.Types.{
  DevicesEvent, device_resolve, device_toggle, device_refresh_state, device_diagnostics,
  toggle_device_done, toggle_device_error, resolve_host_done, resolve_host_error,
  fetch_diagnostics_done, fetch_diagnostics_error, DevicesContext, DeviceState,
  monitor_request_refresh,
}
use merossity.Web.Devices.Actions.{
  rollback_optimistic_toggle, set_device_error, no_state, has_host, request_device_refresh,
  prepare_optimistic_toggle, set_stream_device_state, merge_snapshot, merge_power_snapshot,
  set_power_reading,
}
use merossity.Web.Devices.Machine.{
  Inventory, Operations, resolving, toggling, fetching_diagnostics, Devices, inventory_step,
  operations_step, monitor_step, root_step, step, run,
}

-- The events that the operations take when none runs.
abbrev pub is_device_event : DevicesEvent → Bool
is_device_event (device_resolve uuid mac title) = true
is_device_event (device_toggle uuid onoff) = true
is_device_event (device_refresh_state uuid) = true
is_device_event (device_diagnostics uuid) = true
is_device_event _ = false

-- While an operation runs, `device_RESOLVE`, `device_TOGGLE`, `device_REFRESH_STATE` and
-- `device_DIAGNOSTICS` are dropped: they change nothing, and nothing is sent or started. The
-- request for a refresh that the root takes, `monitor_REQUEST_REFRESH`, is still sent, where its
-- device is not empty, and changes nothing either.
pub busy_ignores :
    (now : ℤ) (m : Devices) (e : DevicesEvent) (uuid : String)
    → m.operations ≢ Operations.idle
    → is_device_event e ≡ true
    → (step now m e ≡ (m, []))
      × (step now m (monitor_request_refresh uuid) ≡ (m, request_device_refresh uuid))
unfolding step inventory_step operations_step monitor_step root_step
busy_ignores now m e uuid busy device = (ground arith, ground arith)

-- The answers that the operation's actor can give.
abbrev pub is_answer : Operations → DevicesEvent → Bool
is_answer resolving (resolve_host_done hosts) = true
is_answer resolving resolve_host_error = true
is_answer toggling (toggle_device_done uuid onoff) = true
is_answer toggling (toggle_device_error message) = true
is_answer fetching_diagnostics (fetch_diagnostics_done uuid host content) = true
is_answer fetching_diagnostics fetch_diagnostics_error = true
is_answer _ _ = false

-- An operation ends with its actor's answer, whichever it is, and with nothing else: then no
-- device is active.
pub answer_ends :
    (now : ℤ) (m : Devices) (e : DevicesEvent)
    → m.operations ≢ Operations.idle
    → (((is_answer m.operations e ≡ true)
          × ((step now m e).0.operations ≡ Operations.idle)
          × ((step now m e).0.context.active_device_uuid ≡ none))
        ⊎ ((is_answer m.operations e ≡ false) × ((step now m e).0.operations ≡ m.operations)))
unfolding step inventory_step operations_step monitor_step root_step
answer_ends now m e busy = ground arith

-- The context after a failed toggle.
abbrev after_error : String → DevicesContext → DevicesContext
after_error message c =
    let c' = rollback_optimistic_toggle c in
    set_device_error (get_or c'.active_device_uuid "") message c'

lookup-after_error :
    (c : DevicesContext) (uuid : String) (previous : Option DeviceState) (message u : String)
    → c.active_device_uuid ≡ some uuid
    → c.toggle_rollback ≡ some (record { uuid = uuid; previous = previous })
    → lookup u (after_error message c).device_states ≡ (
        if str_eq uuid u
        then some (record (get_or previous no_state) { stale = some true; error = some message })
        else lookup u c.device_states)
unfolding rollback_optimistic_toggle set_device_error
lookup-after_error c uuid none message u active kept = ground (
  arith,
  eq_iff uuid u,
  eq_iff uuid uuid,
  lookup-delete uuid uuid c.device_states,
  lookup-delete uuid u c.device_states,
  lookup-insert uuid u (record no_state { stale = some true; error = some message })
      (delete uuid c.device_states),
)
lookup-after_error c uuid (some p) message u active kept = ground (
  arith,
  eq_iff uuid u,
  lookup-insert_self uuid p c.device_states,
  lookup-insert uuid u p c.device_states,
  lookup-insert uuid u (record p { stale = some true; error = some message })
      (insert uuid p c.device_states),
)

inventory_step_error :
    (state : Inventory) (message : String) (c : DevicesContext)
    → inventory_step state (toggle_device_error message) c ≡ (state, c, [])
unfolding inventory_step
inventory_step_error state message c = ground arith

-- A toggle is under way, and `previous` is kept for its device.
abbrev Keeps : (uuid : String) (previous : Option DeviceState) → Devices → Type 0
Keeps uuid previous m =
    (m.operations ≡ toggling)
    × (m.context.active_device_uuid ≡ some uuid)
    × (m.context.toggle_rollback ≡ some (record { uuid = uuid; previous = previous }))

toggle-Keeps :
    (now : ℤ) (m : Devices) (uuid : String) (onoff : Bool)
    → m.operations ≡ Operations.idle
    → has_host uuid m.context ≡ true
    → Keeps uuid (lookup uuid m.context.device_states) (step now m (device_toggle uuid onoff)).0
unfolding step inventory_step operations_step root_step prepare_optimistic_toggle
toggle-Keeps now m uuid onoff idle host = ground arith

step-Keeps :
    (now : ℤ) (m : Devices) (e : DevicesEvent) (uuid : String) (previous : Option DeviceState)
    → Keeps uuid previous m
    → is_answer toggling e ≡ false
    → Keeps uuid previous (step now m e).0
unfolding step inventory_step operations_step root_step set_stream_device_state merge_snapshot
    merge_power_snapshot set_power_reading
step-Keeps now m e uuid previous (busy, active, kept) other = ground arith

run-Keeps :
    (events : List (ℤ × DevicesEvent)) (m : Devices) (uuid : String) (previous : Option DeviceState)
    → Keeps uuid previous m
    → All (λ e. is_answer toggling e.1 ≡ false) events
    → Keeps uuid previous (run m events)
unfolding run
run-Keeps [] m uuid previous k h = k
run-Keeps ((now, e) ∷ events) m uuid previous k (h, hs) =
    run-Keeps events (step now m e).0 uuid previous (step-Keeps now m e uuid previous k h) hs

after_error_restores :
    (now : ℤ) (m : Devices) (uuid : String) (previous : Option DeviceState) (message u : String)
    → Keeps uuid previous m
    → lookup u (step now m (toggle_device_error message)).0.context.device_states ≡ (
        if str_eq uuid u
        then some (record (get_or previous no_state) { stale = some true; error = some message })
        else lookup u m.context.device_states)
unfolding step inventory_step operations_step root_step
after_error_restores now m uuid previous message u (busy, active, kept) =
    rw (busy, inventory_step_error m.inventory message m.context)
      (lookup-after_error m.context uuid previous message u active kept)

-- A toggle that starts for a device with a host, and then fails, leaves the device in the state
-- that it had when the toggle began, marked as stale with the error, whatever events come between,
-- those of the stream about the device included. Every other device keeps the state that it has
-- when the toggle fails.
pub toggle_error_restores :
    (started failed : ℤ) (m : Devices) (uuid : String) (onoff : Bool)
    (events : List (ℤ × DevicesEvent)) (message u : String)
    → m.operations ≡ Operations.idle
    → has_host uuid m.context ≡ true
    → All (λ e. is_answer toggling e.1 ≡ false) events
    → let begun = (step started m (device_toggle uuid onoff)).0 in
      let before = run begun events in
      let previous = lookup uuid m.context.device_states in
      lookup u (step failed before (toggle_device_error message)).0.context.device_states ≡ (
        if str_eq uuid u
        then some (record (get_or previous no_state) { stale = some true; error = some message })
        else lookup u before.context.device_states)
toggle_error_restores started failed m uuid onoff events message u idle host others =
    let previous = lookup uuid m.context.device_states in
    let begun = (step started m (device_toggle uuid onoff)).0 in
    after_error_restores failed (run begun events) uuid previous message u
      (run-Keeps events begun uuid previous (toggle-Keeps started m uuid onoff idle host) others)
