-- ===== src/Lj.antt =====
-- The Lua functions of lua_java/, one module for each C file, and the loops that they share.
pub mod RawMonitor
pub mod EarlyReturn
pub mod Watch
pub mod StackFrame
pub mod Class
pub mod Field
pub mod Modifiers
pub mod Flags
pub mod Tables
pub mod Members
pub mod Buffers
pub mod Loaded
pub mod ClassTable
pub mod Heap
pub mod Instances
pub mod Frames
pub mod Monitors
pub mod Requests
pub mod Lookup
pub mod Method
pub mod Register
