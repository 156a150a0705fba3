-- ===== src/Lib.antt =====
-- A model of the C core of updater-ng, the package updater of Turris routers, and theorems on it.
--
-- The program is a Lua interpreter with a planner and a transaction engine in Lua (src/lib/lua),
-- on a C core in src/lib: a journal file that makes package transactions survive a crash, URI
-- objects that retrieve and verify data, an event loop with child processes, clean-up handlers,
-- and the programs pkgupdate and pkgtransaction, which drive a transaction. What is modelled is C
-- code; what it calls (the kernel, libevent, curl, OpenSSL, uriparser, base64, Lua) is an argument
-- of the definitions.
--
-- Which file models what:
-- - Base: numbers, lists, tests and byte strings that all parts share.
-- - Journal: src/lib/journal.c. Format has the record, Write and Read the two directions over a
--   file given as bytes and answers of write(2) and read(2), Calls the functions that Lua calls.
--   Loops, Recovery, Torn, Sequence and Session have the proofs. A loop over answers of the kernel
--   is recursion on the list of answers.
-- - Uri: src/lib/uri.c. State has the store of objects and of shared list nodes with their
--   counters, Lists the counters, Canonize the construction, Config the settings, Finish the
--   retrieval and the check of signatures, Register the registration with the downloader of
--   Download, Signed the proofs that join it with signature.c. Counting, Verified, Retry,
--   Settings, Data and Registered have the other proofs. The recursion of an object into the keys
--   and signatures that it refers to is on a depth; a loop over a list of nodes is on fuel, one
--   more than the nodes.
-- - Cleanup: src/lib/util.c, the clean-up handlers. Array is the code, Stack the stack that it
--   implements, Refines the refinement.
-- - Events: src/lib/events.c. State has the records and the memory of commands, Queue the arrays,
--   the postponed callbacks and the children, Commands the life of a command, Run its start, Wait
--   the wait, the cancellation and the end. Pending, Active, Ends, Children, Cancelled and Start
--   have the proofs. The loop over postponed callbacks is on fuel, and run_pending-ends says how
--   much is enough; the wait is recursion on the list of libevent's rounds.
-- - Syscnf: src/lib/syscnf.c. Paths has the target's root and its paths, Release the reading of
--   os-release and the two tables. Roots, Printed and Tables have the proofs.
-- - Subprocess: src/lib/subprocess.c. Poll has the loop, Start the call around it; Branches,
--   Collected and Signals have the proofs. The loop is recursion on the list of rounds that poll
--   gives.
-- - Download: src/lib/download.c. State has the downloader, its instances and curl's settings,
--   Transfer what curl reports and gives; Counts, Owned, Results and Written have the proofs.
-- - Changelog: src/lib/changelog.c. File has the operations, Lines the reading back of what is
--   written. The loop over lines is on fuel, one more than the bytes, since each round moves on by
--   one at least.
-- - PathUtils: src/lib/path_utils.c. Order has the comparison of paths, Tree a file tree with the
--   removal and the listing, Listed and Removed the proofs; Made has the creation of a directory
--   with those above it and its proof, on the length of the path.
-- - Signature: src/lib/signature.c. Keys has the loading and the verification, Accepted and Loaded
--   the proofs.
-- - Logging: src/lib/logging.c. Levels has the levels with their names, Messages the output to
--   syslog and stderr, Output the streams for the output of a subprocess; Named and Collected have
--   the proofs.
-- - Opmode: src/lib/opmode.c. Modes has the array and the functions for Lua, Independent the
--   proofs.
-- - Locks: src/lib/locks.c. Lock has the object and the calls of the kernel that its functions
--   make, Balanced the proofs.
-- - Util: src/lib/util.c without the clean-up handlers: Files, Hooks and Reboot, with the proofs
--   in Written.
-- - Arguments: src/lib/arguments.c, src/pkgupdate/arguments.c and src/pkgtransaction/arguments.c.
--   Common, Update and Transaction have the parsers on the keys that argp finds, Reexec the saved
--   arguments; Flags and Operations have the proofs. The loop around getcwd is on fuel, one more
--   than the length of the path, since each round has at least one byte more.
-- - Interpreter: src/lib/interpreter.c. Lua has the interface that stands for Lua's values.
--   Registry has the values that C code keeps, Call and Results a call of a Lua function and what
--   it gives, Commands, Handles and Process what Lua starts, Stat, Hashes and Log files, hashes
--   and messages, Include the modules. Registered, Callbacks, Collected, Lookup, Listing,
--   Permissions, Printed, Messages and Released have the proofs. The loop over the names of a path
--   is on fuel, the length of the path.
-- - Programs: src/pkgupdate/main.c and src/pkgtransaction/main.c. Actions has what the programs do
--   to the outside and their calls of Lua, Update and Transaction the programs; they use the parts
--   Arguments, Interpreter, Opmode, Syscnf and Util. Quiet, Decided and Ends have the lemmas on
--   parts of a run, Confirmed, Success, Rebooting and Queued the theorems on whole runs.
--
-- Sizes of arrays and the clock in milliseconds do not wrap around: what they count is in memory,
-- or far below 2 ^ 31.
--
-- Parts that are left out: the Lua code in src/lib/lua, which is another language; archives and
-- the functions that only convert values for Lua; the creation of the interpreter and the coverage
-- of Lua code; the sockets between curl and libevent; the SAT solver, which is a copy of another
-- project; tests and build files.
pub mod Base
pub mod Journal
pub mod Uri
pub mod Cleanup
pub mod Logging
pub mod Events
pub mod Syscnf
pub mod Subprocess
pub mod Download
pub mod Changelog
pub mod PathUtils
pub mod Signature
pub mod Opmode
pub mod Util
pub mod Arguments
pub mod Locks
pub mod Interpreter
pub mod Programs
