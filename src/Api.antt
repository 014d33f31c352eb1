-- ===== src/Api.antt =====
-- packages/core/src/api: the handlers for devices.
pub mod Client
pub mod Discovery
pub mod Hosts
pub mod Rules
pub mod Schedules
pub mod States
pub mod Removal
pub mod Switching
pub mod Timers
