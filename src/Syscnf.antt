-- ===== src/Syscnf.antt =====
-- src/lib/syscnf.c: the paths below the target's root, and os-release.
pub mod Paths
pub mod Release
pub mod Roots
pub mod Printed
pub mod Tables
pub mod Examples
