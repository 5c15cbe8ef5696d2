-- ===== src/Tests.antt =====
-- The theorems at concrete inputs, and the definitions run on some.
mod Writing
mod Reading
mod Requests
mod Updates
mod Commands
pub mod Documents
mod Decoding
mod Uplink
mod Sending
mod Answering
mod Enrolling
