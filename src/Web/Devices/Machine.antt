-- ===== src/Web/Devices/Machine.antt =====
-- The parallel machine of apps/web/src/state/devicesMachine.ts. An invoked actor runs while its
-- state is active, so its answer is an event that this state alone takes. No event is taken by two
-- regions, or by a region and the root.
use merossity.Prelude.{String}
use merossity.Prelude.{none, some, List, [], ◌∷◌, ◌++◌}
use merossity.Prelude.{if◌then◌else◌}
use merossity.Prelude.{get_or}
use merossity.Prelude.Integers.{ℤ}
use merossity.Web.Devices.Types.{DevicesContext, initial_context}
use merossity.Web.Devices.Types.{
  DevicesEvent, refresh, scan, set_cidr, device_resolve, device_toggle, device_refresh_state,
  device_diagnostics, monitor_stream_connected, monitor_stream_disconnected, monitor_state_received,
  monitor_device_stale, monitor_snapshot, monitor_power_snapshot, monitor_power_received,
  monitor_request_refresh, close_system_dump, refresh_from_cloud_done, refresh_from_cloud_error,
  suggest_cidr_done, suggest_cidr_error, discover_hosts_done, discover_hosts_error,
  resolve_host_done, resolve_host_error, toggle_device_done, toggle_device_error,
  fetch_diagnostics_done, fetch_diagnostics_error,
}
use merossity.Web.Devices.Types.{
  Effect, persist_cidr, invoke_refresh_from_cloud, invoke_suggest_cidr, invoke_discover_hosts,
  invoke_resolve_host, invoke_toggle_device, invoke_fetch_diagnostics,
}
use merossity.Web.Devices.Actions.{
  set_cidr_if_empty, persist_cidr_remote, request_device_refresh, prepare_optimistic_toggle,
  rollback_optimistic_toggle, set_stream_device_state, merge_snapshot, merge_power_snapshot,
  set_power_reading, set_device_error, needs_cidr_suggest, has_host,
}

pub data Inventory : Type 0 where
  idle refreshing_cloud suggesting_cidr discovering_hosts : Inventory

pub data Operations : Type 0 where
  idle resolving toggling fetching_diagnostics : Operations

pub data Monitor : Type 0 where
  connecting live degraded : Monitor

pub record Devices : Type 0 where
  pub inventory : Inventory
  pub operations : Operations
  pub monitor : Monitor
  pub context : DevicesContext

unfoldable pub initial : String → Devices × List Effect
unfolding initial_context
initial initial_cidr = (
  record {
    inventory = Inventory.idle;
    operations = Operations.idle;
    monitor = connecting;
    context = initial_context initial_cidr;
  },
  [],
)

unfoldable pub inventory_step :
    Inventory → DevicesEvent → DevicesContext → Inventory × DevicesContext × List Effect
inventory_step Inventory.idle refresh c = (refreshing_cloud, c, invoke_refresh_from_cloud ∷ [])
inventory_step Inventory.idle scan c =
    if needs_cidr_suggest c
    then (suggesting_cidr, c, invoke_suggest_cidr ∷ [])
    else (discovering_hosts, c, invoke_discover_hosts c.cidr ∷ [])
inventory_step refreshing_cloud (refresh_from_cloud_done list hosts) c =
    (Inventory.idle, record c { devices = list; hosts = hosts }, [])
inventory_step refreshing_cloud refresh_from_cloud_error c = (Inventory.idle, c, [])
inventory_step suggesting_cidr (suggest_cidr_done suggested) c =
    let c' = set_cidr_if_empty suggested c in
    (discovering_hosts, c', invoke_discover_hosts c'.cidr ∷ [])
inventory_step suggesting_cidr suggest_cidr_error c =
    (discovering_hosts, c, invoke_discover_hosts c.cidr ∷ [])
inventory_step discovering_hosts (discover_hosts_done hosts_all) c =
    (Inventory.idle, record c { hosts = hosts_all }, [])
inventory_step discovering_hosts discover_hosts_error c = (Inventory.idle, c, [])
inventory_step state _ c = (state, c, [])

abbrev activate : String → DevicesContext → DevicesContext
activate uuid c = record c { active_device_uuid = some uuid }

abbrev deactivate : DevicesContext → DevicesContext
deactivate c = record c { active_device_uuid = none }

abbrev clear_toggle_rollback : DevicesContext → DevicesContext
clear_toggle_rollback c = record c { toggle_rollback = none }

unfoldable pub operations_step :
    (now : ℤ)
    → Operations
    → DevicesEvent
    → DevicesContext
    → Operations × DevicesContext × List Effect
operations_step now Operations.idle (device_resolve uuid mac title) c =
    (resolving, activate uuid c, invoke_resolve_host uuid mac c.cidr ∷ [])
operations_step now Operations.idle (device_toggle uuid onoff) c =
    if has_host uuid c
    then (
      toggling,
      prepare_optimistic_toggle uuid onoff now (activate uuid c),
      invoke_toggle_device uuid onoff ∷ [],
    )
    else (Operations.idle, c, [])
operations_step now Operations.idle (device_refresh_state uuid) c =
    (Operations.idle, c, request_device_refresh uuid)
operations_step now Operations.idle (device_diagnostics uuid) c =
    if has_host uuid c
    then (fetching_diagnostics, activate uuid c, invoke_fetch_diagnostics uuid ∷ [])
    else (Operations.idle, c, [])
operations_step now resolving (resolve_host_done hosts) c =
    (Operations.idle, deactivate (record c { hosts = hosts }), [])
operations_step now resolving resolve_host_error c = (Operations.idle, deactivate c, [])
operations_step now toggling (toggle_device_done uuid onoff) c =
    (Operations.idle, deactivate (clear_toggle_rollback c), request_device_refresh uuid)
operations_step now toggling (toggle_device_error message) c =
    let c' = rollback_optimistic_toggle c in
    (
      Operations.idle,
      deactivate
          (clear_toggle_rollback (set_device_error (get_or c'.active_device_uuid "") message c')),
      [],
    )
operations_step now fetching_diagnostics (fetch_diagnostics_done uuid host content) c = (
  Operations.idle,
  deactivate
      (record c { system_dump = some (record { uuid = uuid; host = host; content = content }) }),
  [],
)
operations_step now fetching_diagnostics fetch_diagnostics_error c =
    (Operations.idle, deactivate c, [])
operations_step now state _ c = (state, c, [])

unfoldable pub monitor_step : Monitor → DevicesEvent → Monitor
monitor_step connecting monitor_stream_connected = live
monitor_step connecting monitor_stream_disconnected = degraded
monitor_step live monitor_stream_disconnected = degraded
monitor_step degraded monitor_stream_connected = live
monitor_step state _ = state

-- The `on` of the root. `persistCidr` runs after the assignment, so it stores the new text.
unfoldable pub root_step : DevicesEvent → DevicesContext → DevicesContext × List Effect
root_step (set_cidr cidr) c =
    (record c { cidr = cidr }, persist_cidr cidr ∷ persist_cidr_remote cidr)
root_step (monitor_request_refresh uuid) c = (c, request_device_refresh uuid)
root_step (monitor_snapshot states) c = (merge_snapshot states c, [])
root_step (monitor_power_snapshot readings) c = (merge_power_snapshot readings c, [])
root_step (monitor_state_received state) c = (set_stream_device_state state c, [])
root_step (monitor_device_stale state) c = (set_stream_device_state state c, [])
root_step (monitor_power_received reading) c = (set_power_reading reading c, [])
root_step close_system_dump c = (record c { system_dump = none }, [])
root_step _ c = (c, [])

unfoldable pub step : (now : ℤ) → Devices → DevicesEvent → Devices × List Effect
step now m e =
    let (inventory', c1, effects1) = inventory_step m.inventory e m.context in
    let (operations', c2, effects2) = operations_step now m.operations e c1 in
    let (c3, effects3) = root_step e c2 in
    (
      record {
        inventory = inventory';
        operations = operations';
        monitor = monitor_step m.monitor e;
        context = c3;
      },
      effects1 ++ (effects2 ++ effects3),
    )

-- A run from a state, each event with the time at which it comes.
unfoldable pub run : Devices → List (ℤ × DevicesEvent) → Devices
unfolding step
run m [] = m
run m ((now, e) ∷ events) = run (step now m e).0 events
