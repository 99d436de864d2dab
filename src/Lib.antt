-- ===== src/Lib.antt =====
-- A model of yellow-tree's agent, the C library that a JVM loads and that lets Lua code debug the
-- Java program, with the theorems about it.
--
-- The program. Lua code calls C functions named `lj_...`; each takes its arguments from the stack of
-- its Lua state, calls the JVM through JVMTI or JNI, checks the error code and pushes its results.
-- In the other direction JVMTI calls C functions for its events, and each of those calls the Lua
-- function that was set for the event. Two tables connect the directions: `jvmti_callbacks` of
-- jni_util.c, the C functions that JVMTI knows, and `lj_jvmti_callbacks` of lua_jvmti_event.c, the
-- references of the Lua functions.
--
-- Which file models what:
--   Common          numbers, lists, integers of a machine's width, bits
--   Runtime         the state and the commands. Value: Lua values and the records of JVMTI; World:
--                   the agent's globals, the stack of the running C function, the buffers that JVMTI
--                   allocated; a command returns, raises a Lua error, stops the process or has no
--                   defined behaviour. Jvmti, Jni, Host: the functions that the agent calls and
--                   does not implement, as an interface. Stack: the Lua C API on the stack of one
--                   C function; Globals, Lookup: its global variables. Calls: calls of the JVM. After,
--                   Returns, Stops, Answers: what holds after a command
--   JniUtil         jni_util.c, jni_util.h, lua_java/lj_internal.h
--   LuaInterface    lua_interface.c: traceback, lua_interface_error; Start: lua_start_cmd; Init:
--                   lua_interface_init, lua_print_traceback; Ready, Printing: their theorems
--   Agent           yt.c: Agent_OnLoad; VmInit: cbVMInit, the command thread, the other entry points;
--                   Resume: cbVMInit and the debugger's command g at thread_resume_monitor, with
--                   java_bridge/jmonitor.lua; Interleaving, Return: what holds of all their orders
--   Bridge          java_bridge/types.c
--   LuaJava         lua_java.c: lj_check_jvmti_error_internal, get_current_java_thread, and in
--                   the children its Lua functions: Breakpoint, Local, GetField, Call, Array,
--                   Thread. Types: telling a type from a signature. Errors, Locals, Values,
--                   References, Arguments, Return, Calling, Threads, Fields: their theorems. Init: lj_init
--   Event           lua_jvmti_event.c: the tables and get_jvmti_callback_pointers. Registry:
--                   lj_set_jvmti_callback and lj_clear_jvmti_callback. Dispatch: the cb_ functions.
--                   Protected: lua_pcall and the new Lua thread. Wiring, Reachable: the invariant of
--                   the two tables. Setting, Rows, Unknown: what setting and clearing do. Delivery,
--                   Modes: what an event does. History: the callbacks as a map from names to functions;
--                   Refinement: the C code keeps to it
--   Lj              lua_java/: Class, Field, Method, Modifiers, StackFrame, Watch, RawMonitor,
--                   EarlyReturn, after the C files; Register: the functions
--                   lj_..._register. Tables, Members, Buffers, Loaded, ClassTable, Lookup, Frames,
--                   Flags, Monitors, Requests: their theorems. Heap: the heap as JVMTI
--                   documents it; Instances: the search for the instances of a class on it
--   Results         the functions that Lua finds, by name (Commands), the results that each of them leaves
--                   on its stack (Classes, Members, Threads, Values, Call, after the C files; Calls: what
--                   they share; Registered), and the integers that are passed to JNI (Narrowing, Ranges)
--   Tests           a small JVM, and the theorems applied to it
--
-- State and operations. A C function `lj_f(L)` is a command `lj_f`, which answers with the number of
-- its results; `enter args w` is the state in which Lua calls it, with the arguments on a stack of
-- its own, the last one on top. `lj_err`, `lj_current_thread`, the two tables, the registry and
-- `class_instances_search_tag` are fields of the state. The state of the JVM is a type `J`, and each
-- function of JVMTI and JNI answers with its results and the next state. What the Lua functions do
-- is the interface `Scripts`: any change of the whole state.
--
-- Bounds. The loops run over the list that JVMTI stored, or over the count of the arguments of a
-- method, and are structural. Only the loop of the command interpreter has fuel; one unit is enough.
-- A `jint` argument is narrowed from the 64 bits of a Lua integer to 32, and the search tag wraps at
-- 64. The length of a text is that of its bytes in UTF-8. An `int` that is read before it is written,
-- as the count of lines after an error, is the parameter `indeterminate`.
--
-- Not modelled. The bodies of the debugger and the bridge that are written in Lua: where C calls them
-- they are parameters, `Scripts` for the callbacks, `Interpreter` for the start, `call_global` for the
-- command interpreter. lua_print_traceback is modelled by itself; in the callbacks it is taken for a
-- part of what the protected Lua call does. Threads of the JVM run at the same time only in
-- Agent.Resume, where the two threads at thread_resume_monitor are interleaved; a wait there ends with
-- a notification alone, not with an interrupt. A failed `lua_checkstack` and an exhausted memory do not
-- occur, but for the creation of the Lua state. The `__gc` of userdata is not run. `current_jni` has
-- no effect: attaching a thread to the JVM, which it asserts, always succeeds.
pub mod Common
pub mod Runtime
pub mod JniUtil
pub mod LuaInterface
pub mod Bridge
pub mod LuaJava
pub mod Event
pub mod Lj
pub mod Agent
pub mod Results
mod Tests
