-- ===== src/Web/Devices/Invariant.antt =====
-- What holds of the machine of apps/web/src/state/devicesMachine.ts between two events.
use merossity.Prelude.{String}
use merossity.Prelude.{◌≡◌, refl, ◌∙◌, inl, inr, true}
use merossity.Prelude.{none, some, List, [], ◌∷◌, arith}
use merossity.Prelude.{Bool-cases, is_some}
use merossity.Prelude.Integers.{ℤ}
use merossity.Prelude.Maps.{lookup}
use merossity.Web.Devices.Types.{
  DevicesEvent, device_toggle, toggle_device_done, toggle_device_error, DevicesContext, Rollback,
}
use merossity.Web.Devices.Actions.{
  has_host, prepare_optimistic_toggle, set_stream_device_state, merge_snapshot,
  merge_power_snapshot, set_power_reading,
}
use merossity.Web.Devices.Machine.{
  Inventory, Operations, resolving, toggling, fetching_diagnostics, Devices, initial,
  inventory_step, operations_step, root_step, step, run,
}

-- Between operations no device is active; while one runs, one is; and a state to go back to is
-- kept during a toggle alone, for the active device.
abbrev pub Matches : Operations → DevicesContext → Type 0
Matches Operations.idle c = (c.active_device_uuid ≡ none) × (c.toggle_rollback ≡ none)
Matches resolving c = (is_some c.active_device_uuid ≡ true) × (c.toggle_rollback ≡ none)
Matches fetching_diagnostics c = (is_some c.active_device_uuid ≡ true) × (c.toggle_rollback ≡ none)
Matches toggling c =
    (r : Rollback) × (c.active_device_uuid ≡ some r.uuid) × (c.toggle_rollback ≡ some r)

abbrev pub IsConsistent : Devices → Type 0
IsConsistent m = Matches m.operations m.context

inventory_step_keeps :
    (state : Inventory) (e : DevicesEvent) (c : DevicesContext)
    → ((inventory_step state e c).1.active_device_uuid ≡ c.active_device_uuid)
      × ((inventory_step state e c).1.toggle_rollback ≡ c.toggle_rollback)
      × ((inventory_step state e c).1.device_states ≡ c.device_states)
unfolding inventory_step
inventory_step_keeps state e c = ground arith

root_step_keeps :
    (e : DevicesEvent) (c : DevicesContext)
    → ((root_step e c).0.active_device_uuid ≡ c.active_device_uuid)
      × ((root_step e c).0.toggle_rollback ≡ c.toggle_rollback)
unfolding root_step set_stream_device_state merge_snapshot merge_power_snapshot set_power_reading
root_step_keeps e c = ground arith

Matches-transport :
    (state : Operations) (c c' : DevicesContext)
    → (c'.active_device_uuid ≡ c.active_device_uuid) × (c'.toggle_rollback ≡ c.toggle_rollback)
    → Matches state c
    → Matches state c'
Matches-transport Operations.idle c c' k h = ground arith
Matches-transport resolving c c' k h = ground arith
Matches-transport fetching_diagnostics c c' k h = ground arith
Matches-transport toggling c c' k (r, p, q) = (r, k.0 ∙ p, k.1 ∙ q)

operations_step-Matches :
    (now : ℤ) (state : Operations) (e : DevicesEvent) (c : DevicesContext)
    → Matches state c
    → Matches (operations_step now state e c).0 (operations_step now state e c).1
unfolding operations_step prepare_optimistic_toggle
operations_step-Matches now Operations.idle (device_toggle uuid onoff) c h =
    elim (Bool-cases (has_host uuid c)) [
      | inl e ↦ rw e (record { uuid = uuid; previous = lookup uuid c.device_states }, refl, refl)
      | inr e ↦ rw e h
    ]
operations_step-Matches now toggling (toggle_device_done uuid onoff) c h = (refl, refl)
operations_step-Matches now toggling (toggle_device_error message) c h = (refl, refl)
operations_step-Matches now toggling e c h = h
operations_step-Matches now state e c h = ground arith

-- Events and answers leave a consistent machine consistent.
pub run-IsConsistent :
    (m : Devices) (events : List (ℤ × DevicesEvent)) → IsConsistent m → IsConsistent (run m events)
unfolding run step
run-IsConsistent m [] h = h
run-IsConsistent m ((now, e) ∷ events) h =
    let (same, same', _) = inventory_step_keeps m.inventory e m.context in
    let c1 = (inventory_step m.inventory e m.context).1 in
    let c2 = (operations_step now m.operations e c1).1 in
    let h1 = Matches-transport m.operations m.context c1 (same, same') h in
    let h2 = operations_step-Matches now m.operations e c1 h1 in
    run-IsConsistent (step now m e).0 events (
      Matches-transport (operations_step now m.operations e c1).0 c2 (root_step e c2).0
        (root_step_keeps e c2) h2)

-- Whatever events and answers come after the start, no device is marked as active unless an
-- operation runs, one is while an operation runs, and the state for a rollback is kept exactly
-- during a toggle, for the active device.
pub reached-IsConsistent :
    (cidr : String) (events : List (ℤ × DevicesEvent)) → IsConsistent (run (initial cidr).0 events)
unfolding initial
reached-IsConsistent cidr events = run-IsConsistent (initial cidr).0 events (refl, refl)
