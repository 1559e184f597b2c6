-- ===== src/Throttle.antt =====
-- proxy/patch.c, the flood guards: the leaky bucket, the tables of buckets and the detours that
-- use them.
pub mod RateLimit
pub mod Buckets
pub mod Rcon
pub mod Crowd
pub mod Tally
pub mod Oob
pub mod Donedl
