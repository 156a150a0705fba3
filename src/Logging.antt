-- ===== src/Logging.antt =====
-- src/lib/logging.c: levels, messages for syslog and the error output, and the output of programs.
pub mod Levels
pub mod Messages
pub mod Output
pub mod Named
pub mod Collected
pub mod Examples
