-- ===== src/Runtime.antt =====
-- What the C code works on: the values and the stack of Lua, the interfaces of the JVM and of Lua's
-- own running of code (parameters), the state of the agent, and the commands over that state.
pub mod Value
pub mod Jvmti
pub mod Jni
pub mod Host
pub mod World
pub mod Stack
pub mod Globals
pub mod Lookup
pub mod Calls
pub mod After
pub mod Returns
pub mod Stops
pub mod Answers
