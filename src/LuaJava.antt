-- ===== src/LuaJava.antt =====
-- lua_java.c: the error check that follows every JVMTI call, and the thread that the Lua side
-- works on. The children hold its Lua functions, one family each.
pub mod Breakpoint
pub mod Errors
pub mod Types
pub mod Values
pub mod Locals
pub mod Call
pub mod Arguments
pub mod Return
pub mod Calling
pub mod Threads
pub mod Fields
pub mod Local
pub mod References
pub mod GetField
pub mod Array
pub mod Thread
pub mod Init
use Prim.Native.String.{◌++◌}
use yellow_tree.Common.{List, ◌∷◌, ℕ, [], Option, none, some, String, if◌then◌else◌, is_some}
use yellow_tree.Common.Int.{ℤ, pos}
use yellow_tree.Runtime.Value.{
  Ptr, JvmtiError, is_none_error, error_none, invalid_slot, type_mismatch, null_pointer,
  absent_information, native_method, illegal_argument, other_error, JValue,
}
use yellow_tree.Runtime.Jni.{object_type}
use yellow_tree.Runtime.Host.{Host}
use yellow_tree.Runtime.World.{World, Cmd, ok, pure, ◌>>=◌, ◌>>◌, assert, gets}
use yellow_tree.Runtime.Calls.{jni_get}
use yellow_tree.LuaInterface.{lua_interface_error}
use yellow_tree.JniUtil.{exception_check}

-- The numbers of jvmti.h.
abbrev pub error_code : JvmtiError → ℕ
error_code error_none = 0
error_code invalid_slot = 35
error_code type_mismatch = 34
error_code null_pointer = 100
error_code absent_information = 101
error_code native_method = 32
error_code illegal_argument = 103
error_code (other_error n) = n

-- The object in a `jvalue`.
abbrev pub object_in : JValue → Option Ptr
object_in (JValue.l p) = p
object_in _ = none

-- The text that `lj_check_jvmti_error` formats; `d` is `%d`.
abbrev pub jvmti_message :
    (d : ℤ → String) (file : String) (line : ℕ) (func : String)
    → JvmtiError
    → (name : String) → String
jvmti_message d file line func e name =
    "["
    ++ file
    ++ ":"
    ++ d (pos line)
    ++ ":"
    ++ func
    ++ "] Error "
    ++ d (pos (error_code e))
    ++ " from JVMTI: "
    ++ name

-- `errmsg`, which a call that fails leaves as it was.
abbrev pub errmsg : Option (Ptr × String) → String
errmsg none = "<Unknown Error>"
errmsg (some (p, name)) = name

abbrev pub add_name : Option (Ptr × String) → List Ptr → List Ptr
add_name none ps = ps
add_name (some (p, name)) ps = p ∷ ps

module _ {J : Type 0} ⦃host : Host J⦄ where
  -- `GetErrorName`, whose error code is not looked at, and what `errmsg` points to then
  abbrev pub error_name : JvmtiError → Cmd J String
  error_name e w =
      let (name, j) = host.jvmti.get_error_name e w.jvm in
      ok (errmsg name) (record w { jvm = j; buffers = add_name name w.buffers })

  -- `lj_check_jvmti_error`, with the place that the macro passes. The name's buffer is never given
  -- back, as the source says.
  unfoldable pub check_jvmti_error : (file : String) (line : ℕ) (func : String) → Cmd J (Unit {0})
  check_jvmti_error file line func w =
      if is_none_error w.lj_err
      then ok tt w
      else (do
        name ← error_name w.lj_err
        lua_interface_error (jvmti_message host.lua.format_d file line func w.lj_err name))
          w

  abbrev pub assert_some : Option Ptr → Cmd J Ptr
  assert_some none w = (assert (is_some {A = Ptr} none) >> pure 0) w
  assert_some (some p) w = ok p w

  -- `java.lang.Thread.currentThread()`
  unfoldable pub call_current_thread : Cmd J Ptr
  unfolding exception_check
  call_current_thread = do
    found ← jni_get (host.jni.find_class "java/lang/Thread")
    exception_check "lua_java.c" 72
    thread_class ← assert_some found
    id ← jni_get (host.jni.get_static_method_id thread_class "currentThread" "()Ljava/lang/Thread;")
    exception_check "lua_java.c" 78
    method_id ← assert_some id
    val ← jni_get (host.jni.call_static_method_a object_type thread_class method_id [])
    exception_check "lua_java.c" 83
    assert_some (object_in val)

  -- the thread of the event that was handled last, if there was one
  abbrev pub thread_or_current : Option Ptr → Cmd J Ptr
  thread_or_current (some thread) w = ok thread w
  thread_or_current none w = call_current_thread w

  unfoldable pub get_current_java_thread : Cmd J Ptr
  get_current_java_thread w = thread_or_current w.lj_current_thread w
