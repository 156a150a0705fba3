-- ===== src/Opmode.antt =====
-- src/lib/opmode.c: the switches that C code and Lua code read and set.
pub mod Modes
pub mod Independent
pub mod Examples
