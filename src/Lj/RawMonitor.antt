-- ===== src/Lj/RawMonitor.antt =====
-- lua_java/lj_raw_monitor.c: raw monitors for Lua.
use yellow_tree.Common.{ℕ}
use yellow_tree.Runtime.Host.{Host}
use yellow_tree.Runtime.World.{Cmd, pure, ◌>>=◌, ◌>>◌}
use yellow_tree.Runtime.Stack.{lua_pop, check_monitor, check_string, check_integer}
use yellow_tree.Runtime.Calls.{jvmti_call, jvmti_get}
use yellow_tree.Bridge.{new_jmonitor}
use yellow_tree.LuaJava.{check_jvmti_error}

module _ {J : Type 0} ⦃host : Host J⦄ where
  unfoldable pub lj_create_raw_monitor : Cmd J ℕ
  lj_create_raw_monitor = do
    name ← check_string 1
    lua_pop 1
    monitor ← jvmti_get (host.jvmti.create_raw_monitor name)
    check_jvmti_error "lua_java/lj_raw_monitor.c" 19 "lj_create_raw_monitor"
    new_jmonitor monitor name
    pure 1

  unfoldable pub lj_destroy_raw_monitor : Cmd J ℕ
  lj_destroy_raw_monitor = do
    monitor ← check_monitor 1
    lua_pop 1
    jvmti_call (host.jvmti.destroy_raw_monitor monitor)
    check_jvmti_error "lua_java/lj_raw_monitor.c" 34 "lj_destroy_raw_monitor"
    pure 0

  unfoldable pub lj_raw_monitor_enter : Cmd J ℕ
  lj_raw_monitor_enter = do
    monitor ← check_monitor 1
    lua_pop 1
    jvmti_call (host.jvmti.raw_monitor_enter monitor)
    check_jvmti_error "lua_java/lj_raw_monitor.c" 47 "lj_raw_monitor_enter"
    pure 0

  unfoldable pub lj_raw_monitor_exit : Cmd J ℕ
  lj_raw_monitor_exit = do
    monitor ← check_monitor 1
    lua_pop 1
    jvmti_call (host.jvmti.raw_monitor_exit monitor)
    check_jvmti_error "lua_java/lj_raw_monitor.c" 60 "lj_raw_monitor_exit"
    pure 0

  unfoldable pub lj_raw_monitor_wait : Cmd J ℕ
  lj_raw_monitor_wait = do
    monitor ← check_monitor 1
    wait ← check_integer 2
    lua_pop 2
    jvmti_call (host.jvmti.raw_monitor_wait monitor wait)
    check_jvmti_error "lua_java/lj_raw_monitor.c" 75 "lj_raw_monitor_wait"
    pure 0

  unfoldable pub lj_raw_monitor_notify : Cmd J ℕ
  lj_raw_monitor_notify = do
    monitor ← check_monitor 1
    lua_pop 1
    jvmti_call (host.jvmti.raw_monitor_notify monitor)
    check_jvmti_error "lua_java/lj_raw_monitor.c" 88 "lj_raw_monitor_notify"
    pure 0

  unfoldable pub lj_raw_monitor_notify_all : Cmd J ℕ
  lj_raw_monitor_notify_all = do
    monitor ← check_monitor 1
    lua_pop 1
    jvmti_call (host.jvmti.raw_monitor_notify_all monitor)
    check_jvmti_error "lua_java/lj_raw_monitor.c" 101 "lj_raw_monitor_notify_all"
    pure 0
