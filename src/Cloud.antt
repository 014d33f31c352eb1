-- ===== src/Cloud.antt =====
-- The cloud client of packages/core/src/meross/cloud/http.ts and the handlers of
-- packages/core/src/api that use it.
pub mod Domains
pub mod Http
pub mod SignIn
pub mod Devices
pub mod Login
