-- ===== src/Web.antt =====
-- The state machines of apps/web/src/state and what the views of apps/web/src/views/devices compute.
pub mod Devices
pub mod Auth
pub mod App
pub mod Views
