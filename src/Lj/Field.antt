-- ===== src/Lj/Field.antt =====
-- lua_java/lj_field.c: finding a field and asking about it.
use yellow_tree.Common.{ℕ, Option, none, some, String, [], ◌∷◌}
use yellow_tree.Runtime.Value.{Ptr, Value}
use yellow_tree.Runtime.Host.{Host}
use yellow_tree.Runtime.World.{Cmd, pure, ◌>>=◌, ◌>>◌}
use yellow_tree.Runtime.Stack.{push, lua_pop, lua_newtable, lua_setfield, check_field, check_string}
use yellow_tree.Runtime.Calls.{jvmti_get, jvmti_buffers, jni_get}
use yellow_tree.JniUtil.{free_jvmti_refs, exception_clear}
use yellow_tree.Bridge.{new_jobject, new_jfield_id}
use yellow_tree.LuaJava.{check_jvmti_error}

module _ {J : Type 0} ⦃host : Host J⦄ where
  abbrev pub static_field_if_none :
      Option Ptr → (klass : Ptr) (field_name sig : String) → Cmd J (Option Ptr)
  static_field_if_none none klass field_name sig =
      jni_get (host.jni.get_static_field_id klass field_name sig)
  static_field_if_none (some id) klass field_name sig = pure (some id)

  abbrev pub push_field : Option Ptr → (klass : Ptr) → Cmd J ℕ
  push_field none klass = push Value.nil >> pure 1
  push_field (some field_id) klass = new_jfield_id field_id klass >> pure 1

  abbrev pub field_of_class : Option Ptr → (field_name sig : String) → Cmd J ℕ
  field_of_class none field_name sig = push Value.nil >> pure 1
  field_of_class (some klass) field_name sig = do
    instance_id ← jni_get (host.jni.get_field_id klass field_name sig)
    exception_clear
    field_id ← static_field_if_none instance_id klass field_name sig
    exception_clear
    push_field field_id klass

  unfoldable pub lj_get_field_id : Cmd J ℕ
  lj_get_field_id = do
    class_name ← check_string 1
    field_name ← check_string 2
    sig ← check_string 3
    lua_pop 3
    klass ← jni_get (host.jni.find_class class_name)
    exception_clear
    field_of_class klass field_name sig

  unfoldable pub lj_get_field_name : Cmd J ℕ
  lj_get_field_name = do
    (field_id, klass) ← check_field 1
    lua_pop 1
    (field_name, sig) ← jvmti_buffers (host.jvmti.get_field_name klass field_id)
    check_jvmti_error "lua_java/lj_field.c" 65 "lj_get_field_name"
    lua_newtable
    push (Value.string field_name.contents)
    lua_setfield "name"
    push (Value.string sig.contents)
    lua_setfield "sig"
    free_jvmti_refs (field_name.at ∷ sig.at ∷ [])
    pure 1

  unfoldable pub lj_get_field_declaring_class : Cmd J ℕ
  lj_get_field_declaring_class = do
    (field_id, klass) ← check_field 1
    lua_pop 1
    declaring ← jvmti_get (host.jvmti.get_field_declaring_class klass field_id)
    check_jvmti_error "lua_java/lj_field.c" 88 "lj_get_field_declaring_class"
    new_jobject declaring
    pure 1

  unfoldable pub lj_get_field_modifiers : Cmd J ℕ
  lj_get_field_modifiers = do
    (field_id, klass) ← check_field 1
    lua_pop 1
    modifiers ← jvmti_get (host.jvmti.get_field_modifiers klass field_id)
    check_jvmti_error "lua_java/lj_field.c" 104 "lj_get_field_modifiers"
    push (Value.integer modifiers)
    pure 1
