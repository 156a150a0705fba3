-- ===== src/Programs.antt =====
-- src/pkgupdate/main.c and src/pkgtransaction/main.c: the two programs, on what Lua and the system answer.
pub mod Actions
pub mod Update
pub mod Transaction
pub mod Quiet
pub mod Decided
pub mod Ends
pub mod Confirmed
pub mod Rebooting
pub mod Success
pub mod Queued
pub mod Examples
