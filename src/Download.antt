-- ===== src/Download.antt =====
-- src/lib/download.c: the downloader and its instances. curl and libevent stand outside: what curl
-- reports is an argument, and what it is told are settings.
pub mod State
pub mod Transfer
pub mod Counts
pub mod Owned
pub mod Results
pub mod Written
pub mod Examples
