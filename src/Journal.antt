-- ===== src/Journal.antt =====
-- src/lib/journal.c, the journal of a transaction: the format of a record, the loops that write
-- and read it, the recovery after a crash, and the calls of the journal module. Proofs and tests are
-- in the children.
pub mod Format
pub mod Write
pub mod Read
pub mod Calls
pub mod Loops
pub mod Recovery
pub mod Torn
pub mod Sequence
pub mod Session
pub mod Examples
