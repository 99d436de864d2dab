-- ===== src/LuaJava/GetField.antt =====
-- lua_java.c: reading a field of an object or a static field of a class.
use Prim.Native.String.{◌++◌}
use yellow_tree.Common.{Bool, String, Option, none, some, if◌then◌else◌, ℕ}
use yellow_tree.Runtime.Value.{Value, Ptr, to_boolean}
use yellow_tree.Runtime.Jni.{JType}
use yellow_tree.Runtime.Host.{Host}
use yellow_tree.Runtime.World.{Cmd, pure, ◌>>=◌, ◌>>◌, print, gets}
use yellow_tree.Runtime.Stack.{push, lua_pop, check_object, check_field, check_boolean}
use yellow_tree.Runtime.Calls.{jvmti_alloc, jni_get, add_buffer}
use yellow_tree.LuaInterface.{top}
use yellow_tree.JniUtil.{exception_check}
use yellow_tree.LuaJava.{check_jvmti_error}
use yellow_tree.LuaJava.Types.{sig_type, push_jvalue}

-- The line of the check in each branch.
abbrev field_line : JType → ℕ
field_line JType.void_type = 0
field_line JType.object_type = 533
field_line JType.boolean_type = 542
field_line JType.byte_type = 551
field_line JType.char_type = 560
field_line JType.short_type = 569
field_line JType.int_type = 578
field_line JType.long_type = 587
field_line JType.float_type = 596
field_line JType.double_type = 605

module _ {J : Type 0} ⦃host : Host J⦄ where
  unfoldable pub push_field_value :
      Option JType → (sig : String) (is_static : Bool) (object field_id : Ptr) → Cmd J (Unit {0})
  push_field_value none sig is_static object field_id = do
    print ("Unknown return type '" ++ sig ++ "' for field\n")
    push Value.nil
  push_field_value (some type) sig is_static object field_id = do
    val ← jni_get (
        if is_static
        then host.jni.get_static_field type object field_id
        else host.jni.get_field type object field_id)
    exception_check "lua_java.c" (field_line type)
    push_jvalue type val

  -- `lua_toboolean(L, -1)` looks at the top. Only the signature is asked for, and its buffer is never
  -- given back.
  unfoldable pub lj_get_field : Cmd J ℕ
  unfolding push_field_value
  lj_get_field = do
    object ← check_object 1
    (field_id, klass) ← check_field 2
    check_boolean 3
    is_static ← gets (λ w. to_boolean (top w.frame))
    lua_pop 3
    (field_name, sig) ←
        jvmti_alloc (λ p ps. add_buffer p.1.at ps) (host.jvmti.get_field_name klass field_id)
    check_jvmti_error "lua_java.c" 525 "lj_get_field"
    push_field_value (sig_type sig.contents) sig.contents is_static object field_id
    pure 1
