-- ===== src/Util.antt =====
-- src/lib/util.c without the cleanup functions: files, hooks and the reboot.
pub mod Files
pub mod Hooks
pub mod Reboot
pub mod Written
pub mod Examples
