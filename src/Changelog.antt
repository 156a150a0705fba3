-- ===== src/Changelog.antt =====
-- src/lib/changelog.c: the log of transactions.
pub mod File
pub mod Lines
pub mod Examples
