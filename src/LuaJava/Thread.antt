-- ===== src/LuaJava/Thread.antt =====
-- lua_java.c: the threads, global references, and an object's text.
use yellow_tree.Common.{Option, none, some, List, [], ◌∷◌, ℕ, ◌+◌}
use yellow_tree.Runtime.Value.{Value, Ptr, Content}
use yellow_tree.Runtime.Jni.{JType}
use yellow_tree.Runtime.Host.{Host}
use yellow_tree.Runtime.World.{Cmd, ok, undefined, gets, pure, ◌>>=◌, ◌>>◌}
use yellow_tree.Runtime.Stack.{push, lua_pop, lua_newtable, lua_rawseti, check_object}
use yellow_tree.Runtime.Calls.{jvmti_buffer, jni_get, jni_do}
use yellow_tree.JniUtil.{exception_check, free_jvmti_refs}
use yellow_tree.LuaInterface.{top}
use yellow_tree.Bridge.{new_jobject, new_string}
use yellow_tree.LuaJava.{check_jvmti_error, get_current_java_thread, object_in}

module _ {J : Type 0} ⦃host : Host J⦄ where
  unfoldable pub lj_get_current_thread : Cmd J ℕ
  lj_get_current_thread = do thread ← get_current_java_thread; new_jobject (some thread); pure 1

  unfoldable pub threads_loop : (i : ℕ) → List Ptr → Cmd J (Unit {0})
  threads_loop i [] = pure tt
  threads_loop i (thread ∷ threads) = do
    new_jobject (some thread)
    lua_rawseti (i + 1)
    threads_loop (i + 1) threads

  unfoldable pub lj_get_all_threads : Cmd J ℕ
  unfolding threads_loop
  lj_get_all_threads = do
    threads ← jvmti_buffer host.jvmti.get_all_threads
    check_jvmti_error "lua_java.c" 638 "lj_get_all_threads"
    lua_newtable
    threads_loop 0 threads.contents
    free_jvmti_refs (threads.at ∷ [])
    pure 1

  unfoldable pub lj_new_global_ref : Cmd J ℕ
  lj_new_global_ref = do
    object ← check_object 1
    global_ref ← jni_get (host.jni.new_global_ref object)
    exception_check "lua_java.c" 806
    lua_pop 1
    new_jobject global_ref
    pure 1

  unfoldable pub lj_delete_global_ref : Cmd J ℕ
  lj_delete_global_ref = do
    object ← check_object 1
    jni_do (host.jni.delete_global_ref object)
    exception_check "lua_java.c" 817
    lua_pop 1
    pure 0

  abbrev pub push_text : Option Ptr → Cmd J ℕ
  push_text none = push Value.nil >> pure 1
  push_text (some text) = new_string (some text) >> pure 1

  abbrev pub call_to_string : (object : Ptr) → Option Ptr → Cmd J ℕ
  call_to_string object none = push Value.nil >> pure 1
  call_to_string object (some method_id) = do
    val ← jni_get (host.jni.call_method_a JType.object_type object method_id [])
    exception_check "lua_java.c" 496
    push_text (object_in val)

  abbrev pub to_string_of_class : (object : Ptr) → Option Ptr → Cmd J ℕ
  to_string_of_class object none = push Value.nil >> pure 1
  to_string_of_class object (some class) = do
    method_id ← jni_get (host.jni.get_method_id class "toString" "()Ljava/lang/String;")
    exception_check "lua_java.c" 488
    call_to_string object method_id

  unfoldable pub lj_to_string : Cmd J ℕ
  lj_to_string = do
    object ← check_object 1
    lua_pop 1
    class ← jni_get (host.jni.find_class "java/lang/Object")
    exception_check "lua_java.c" 481
    to_string_of_class object class

  -- the first word of the userdata on top
  abbrev pub first_word : Value → Cmd J Ptr
  first_word (Value.userdata m (Content.pointer p)) w = ok p w
  first_word (Value.userdata m (Content.field f c)) w = ok f w
  first_word _ w = undefined w

  unfoldable pub lj_pointer_to_string : Cmd J ℕ
  lj_pointer_to_string = do
    p ← gets (λ w. top w.frame) >>= first_word
    lua_pop 1
    push (Value.string (host.lua.format_p p))
    pure 1
