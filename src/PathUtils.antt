-- ===== src/PathUtils.antt =====
-- src/lib/path_utils.c: recursive removal and listing of a directory tree.
pub mod Order
pub mod Tree
pub mod Listed
pub mod Removed
pub mod Made
pub mod Examples
