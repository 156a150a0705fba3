-- ===== src/Locks.antt =====
-- src/lib/locks.c: lock files that Lua code holds.
pub mod Lock
pub mod Balanced
pub mod Examples
