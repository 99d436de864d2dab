-- ===== src/Lj/Watch.antt =====
-- lua_java/lj_watch.c: watching the accesses to a field and its modifications.
use yellow_tree.Common.{ℕ}
use yellow_tree.Runtime.Host.{Host}
use yellow_tree.Runtime.World.{Cmd, pure, ◌>>=◌, ◌>>◌}
use yellow_tree.Runtime.Stack.{lua_pop, check_field}
use yellow_tree.Runtime.Calls.{jvmti_call}
use yellow_tree.LuaJava.{check_jvmti_error}

module _ {J : Type 0} ⦃host : Host J⦄ where
  unfoldable pub lj_set_field_access_watch : Cmd J ℕ
  lj_set_field_access_watch = do
    (field_id, klass) ← check_field 1
    lua_pop 1
    jvmti_call (host.jvmti.set_field_access_watch klass field_id)
    check_jvmti_error "lua_java/lj_watch.c" 16 "lj_set_field_access_watch"
    pure 0

  unfoldable pub lj_set_field_modification_watch : Cmd J ℕ
  lj_set_field_modification_watch = do
    (field_id, klass) ← check_field 1
    lua_pop 1
    jvmti_call (host.jvmti.set_field_modification_watch klass field_id)
    check_jvmti_error "lua_java/lj_watch.c" 29 "lj_set_field_modification_watch"
    pure 0
