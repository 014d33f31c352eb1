-- ===== src/Web/Views.antt =====
-- What the components of apps/web/src/views/devices compute and keep.
pub mod Card
pub mod Lights
pub mod Timers
