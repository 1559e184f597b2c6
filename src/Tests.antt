-- ===== src/Tests.antt =====
-- The theorems at concrete inputs, by part.
pub mod Throttle
pub mod Flood
pub mod Requests
pub mod Commands
pub mod Userinfo
pub mod Hooks
pub mod Plant
pub mod Loader
