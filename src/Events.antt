-- ===== src/Events.antt =====
-- src/lib/events.c: the event loop's children and commands, the queue of postponed callbacks, and the
-- wait for events. libevent and the kernel stand outside: what they report is an argument.
pub mod State
pub mod Queue
pub mod Commands
pub mod Run
pub mod Wait
pub mod Pending
pub mod Active
pub mod Ends
pub mod Children
pub mod Cancelled
pub mod Start
pub mod Examples
