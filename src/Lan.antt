-- ===== src/Lan.antt =====
-- packages/core/src/meross/lan: addresses of the local network.
pub mod Address
pub mod Mac
pub mod Scan
