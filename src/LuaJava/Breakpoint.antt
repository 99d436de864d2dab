-- ===== src/LuaJava/Breakpoint.antt =====
-- lua_java.c: setting and clearing a breakpoint.
use yellow_tree.Common.{ℕ}
use yellow_tree.Runtime.Host.{Host}
use yellow_tree.Runtime.World.{Cmd, pure, ◌>>=◌, ◌>>◌}
use yellow_tree.Runtime.Stack.{check_method, check_integer, lua_pop}
use yellow_tree.Runtime.Calls.{jvmti_call}
use yellow_tree.LuaJava.{check_jvmti_error}

module _ {J : Type 0} ⦃host : Host J⦄ where
  unfoldable pub lj_set_breakpoint : Cmd J ℕ
  lj_set_breakpoint = do
    method_id ← check_method 1
    location ← check_integer 2
    lua_pop 2
    jvmti_call (host.jvmti.set_breakpoint method_id location)
    check_jvmti_error "lua_java.c" 106 "lj_set_breakpoint"
    pure 0

  unfoldable pub lj_clear_breakpoint : Cmd J ℕ
  lj_clear_breakpoint = do
    method_id ← check_method 1
    location ← check_integer 2
    lua_pop 2
    jvmti_call (host.jvmti.clear_breakpoint method_id location)
    check_jvmti_error "lua_java.c" 121 "lj_clear_breakpoint"
    pure 0
