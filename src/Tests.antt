-- ===== src/Tests.antt =====
-- The theorems at concrete inputs.
mod Polling
mod Machines
mod Addresses
mod Workers
mod Responses
mod Handlers
mod Clouds
mod Scans
mod Streams
mod Views
mod Lookups
mod Histories
mod Readings
