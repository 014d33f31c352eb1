-- ===== src/Web/Devices.antt =====
-- apps/web/src/state/devicesMachine.ts: its context, its actions, the machine, and the actor that
-- reads the server's stream.
pub mod Types
pub mod Actions
pub mod Machine
pub mod Toggle
pub mod Invariant
pub mod Exclusion
pub mod Stream
pub mod Parsers
