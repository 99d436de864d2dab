-- ===== src/Results.antt =====
-- All functions that the agent gives to Lua, by name, and the results that they leave on the stack.
mod Calls
mod Classes
mod Members
mod Threads
mod Values
mod Call
pub mod Commands
pub mod Registered
pub mod Narrowing
pub mod Ranges
