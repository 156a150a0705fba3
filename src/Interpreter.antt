-- ===== src/Interpreter.antt =====
-- src/lib/interpreter.c: the bridge between C and Lua. Lua's values and calls are the parameter `LuaApi`.
pub mod Lua
pub mod Registry
pub mod Results
pub mod Call
pub mod Registered
pub mod Collected
pub mod Lookup
pub mod Stat
pub mod Hashes
pub mod Log
pub mod Listing
pub mod Permissions
pub mod Printed
pub mod Messages
pub mod Commands
pub mod Handles
pub mod Process
pub mod Include
pub mod Released
pub mod Callbacks
pub mod Examples
