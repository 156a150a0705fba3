-- ===== src/Subprocess.antt =====
-- src/lib/subprocess.c: running a process with its output collected and a time limit.
pub mod Poll
pub mod Branches
pub mod Start
pub mod Signals
pub mod Collected
pub mod Examples
