-- ===== src/Cleanup.antt =====
-- src/lib/util.c, the cleanup functions: an array with a size and a capacity that grows, used as a
-- stack. The handlers themselves are outside of the model: a run gives the calls that it makes.
pub mod Array
pub mod Stack
pub mod Removal
pub mod Refines
pub mod Examples
