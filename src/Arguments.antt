-- ===== src/Arguments.antt =====
-- src/lib/arguments.c, src/pkgupdate/arguments.c and src/pkgtransaction/arguments.c: the options of the
-- programs. argp, which splits the command line, gives a list of keys with their arguments.
pub mod Common
pub mod Update
pub mod Transaction
pub mod Reexec
pub mod Flags
pub mod Operations
pub mod Examples
