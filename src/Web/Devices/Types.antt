-- ===== src/Web/Devices/Types.antt =====
-- The context and the events of apps/web/src/state/devicesMachine.ts. An optional field is an
-- `Option`, `undefined` and `null` alike; `0 | 1` is a `Bool`. A time or a measured value is a
-- multiple of 2^-1074 (see Json.antt), since the machine stores these and computes nothing of them.
use merossity.Prelude.{ℕ, String}
use merossity.Prelude.{Bool}
use merossity.Prelude.{Option, none, List, []}
use merossity.Prelude.Integers.{ℤ}
use merossity.Prelude.Maps.{Map}
use merossity.Json.{Value}
use merossity.Poller.Types.{LanToggleXChannel, LanLightState, LanScheduleDigestEntry}

pub record HostEntry : Type 0 where
  pub host : String
  pub updated_at : String
  pub mac : Option String

abbrev pub HostsMap : Type 0
HostsMap = Map HostEntry

-- Of a cloud device, the fields that the program reads.
pub record MerossCloudDevice : Type 0 where
  pub uuid : String
  pub dev_name : Option String
  pub device_type : Option String
  pub sub_type : Option String
  pub online_status : Option String
  pub mac_address : Option String
  pub mac : Option String

pub record DeviceState : Type 0 where
  pub host : String
  pub kind : Option String
  pub channel : ℕ
  pub onoff : Bool
  pub channels : Option (List LanToggleXChannel)
  pub lights : Option (List LanLightState)
  pub light : Option LanLightState
  pub timerx_digest : Option (List LanScheduleDigestEntry)
  pub triggerx_digest : Option (List LanScheduleDigestEntry)
  pub updated_at : ℤ
  pub stale : Option Bool
  pub source : Option String
  pub error : Option String

pub record DevicePower : Type 0 where
  pub uuid : String
  pub host : String
  pub channel : ℕ
  pub voltage_v : Option ℤ
  pub current_a : Option ℤ
  pub power_w : Option ℤ
  pub updated_at : ℤ
  pub stale : Bool
  pub error : Option String

pub record StreamDeviceState : Type 0 where
  pub uuid : String
  pub host : String
  pub kind : Option String
  pub channel : ℕ
  pub onoff : Bool
  pub channels : Option (List LanToggleXChannel)
  pub lights : Option (List LanLightState)
  pub light : Option LanLightState
  pub timerx_digest : Option (List LanScheduleDigestEntry)
  pub triggerx_digest : Option (List LanScheduleDigestEntry)
  pub updated_at : ℤ
  pub stale : Bool
  pub source : Option String
  pub error : Option String

pub record SystemDump : Type 0 where
  pub uuid : String
  pub host : String
  pub content : Value

pub record Rollback : Type 0 where
  pub uuid : String
  pub previous : Option DeviceState

pub record DevicesContext : Type 0 where
  pub devices : List MerossCloudDevice
  pub hosts : HostsMap
  pub cidr : String
  pub device_states : Map DeviceState
  pub device_power : Map DevicePower
  pub system_dump : Option SystemDump
  pub active_device_uuid : Option String
  pub toggle_rollback : Option Rollback

unfoldable pub initial_context : String → DevicesContext
initial_context initial_cidr = record {
  devices = [];
  hosts = [];
  cidr = initial_cidr;
  device_states = [];
  device_power = [];
  system_dump = none;
  active_device_uuid = none;
  toggle_rollback = none;
}

-- The events that the application sends, and the answers of the invoked actors.
pub data DevicesEvent : Type 0 where
  refresh scan : DevicesEvent
  set_cidr : (cidr : String) → DevicesEvent
  device_resolve : (uuid mac title : String) → DevicesEvent
  device_toggle : (uuid : String) (onoff : Bool) → DevicesEvent
  device_refresh_state : (uuid : String) → DevicesEvent
  device_diagnostics : (uuid : String) → DevicesEvent
  monitor_stream_connected monitor_stream_disconnected : DevicesEvent
  monitor_state_received monitor_device_stale : StreamDeviceState → DevicesEvent
  monitor_snapshot : List StreamDeviceState → DevicesEvent
  monitor_power_snapshot : List DevicePower → DevicesEvent
  monitor_power_received : DevicePower → DevicesEvent
  monitor_request_refresh : (uuid : String) → DevicesEvent
  close_system_dump : DevicesEvent
  refresh_from_cloud_done : (list : List MerossCloudDevice) (hosts : HostsMap) → DevicesEvent
  refresh_from_cloud_error : DevicesEvent
  suggest_cidr_done : (suggested : Option String) → DevicesEvent
  suggest_cidr_error : DevicesEvent
  discover_hosts_done : (hosts_all : HostsMap) → DevicesEvent
  discover_hosts_error : DevicesEvent
  resolve_host_done : (hosts : HostsMap) → DevicesEvent
  resolve_host_error : DevicesEvent
  toggle_device_done : (uuid : String) (onoff : Bool) → DevicesEvent
  toggle_device_error : (message : String) → DevicesEvent
  fetch_diagnostics_done : (uuid host : String) (content : Value) → DevicesEvent
  fetch_diagnostics_error : DevicesEvent

-- What the machine does outside its context: requests that nobody waits for, and actors that it
-- starts.
pub data Effect : Type 0 where
  persist_cidr : (cidr : String) → Effect
  post_network_cidr : (cidr : String) → Effect
  post_device_states : (uuid : String) → Effect
  invoke_refresh_from_cloud invoke_suggest_cidr : Effect
  invoke_discover_hosts : (cidr : String) → Effect
  invoke_resolve_host : (uuid mac cidr : String) → Effect
  invoke_toggle_device : (uuid : String) (onoff : Bool) → Effect
  invoke_fetch_diagnostics : (uuid : String) → Effect
