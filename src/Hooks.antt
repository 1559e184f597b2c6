-- ===== src/Hooks.antt =====
-- The hooks of proxy/patch.c: code that is written over the first bytes of a function, so that a
-- call of it lands at a detour, and the trampoline through which the detour calls the original.
pub mod Patch
pub mod Jumps
pub mod Inventory
pub mod Length
pub mod Plant
pub mod Install
