-- ===== src/Uri.antt =====
-- src/lib/uri.c, the URI objects: where a file of a repository or a configuration comes from, how it is
-- downloaded and how its signature is checked.
pub mod State
pub mod Lists
pub mod Counting
pub mod Canonize
pub mod Config
pub mod Finish
pub mod Verified
pub mod Signed
pub mod Register
pub mod Registered
pub mod Retry
pub mod Settings
pub mod Data
pub mod Examples
