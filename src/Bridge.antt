-- ===== src/Bridge.antt =====
-- java_bridge/types.c: pushing raw Java values on the stack of a Lua state. A userdata is made
-- first, then filled, then given the metatable that the registry holds under its name.
use yellow_tree.Common.{Option, none, some, String}
use yellow_tree.Runtime.Value.{Ptr, Value, Meta, Content}
use yellow_tree.Runtime.Host.{Host}
use yellow_tree.Runtime.World.{Cmd, ◌>>=◌, ◌>>◌}
use yellow_tree.Runtime.Stack.{push, lua_setmetatable}
use yellow_tree.Runtime.Calls.{jni_get, jni_do}
use yellow_tree.JniUtil.{exception_check}

module _ {J : Type 0} where
  -- `lua_newuserdata` and the write through the pointer that it returns
  abbrev new_userdata : Content → Cmd J (Unit {0})
  new_userdata c = push (Value.userdata none c)

  -- `lua_getfield(L, LUA_REGISTRYINDEX, name)` of one of the four metatables
  abbrev get_registry_meta : Meta → Cmd J (Unit {0})
  get_registry_meta m = push (Value.metatable m)

  unfoldable pub new_jmethod_id : Ptr → Cmd J (Unit {0})
  new_jmethod_id method_id = do
    new_userdata (Content.pointer method_id)
    get_registry_meta Meta.jmethod_id
    lua_setmetatable

  unfoldable pub new_jfield_id : (field_id klass : Ptr) → Cmd J (Unit {0})
  new_jfield_id field_id klass = do
    new_userdata (Content.field field_id klass)
    get_registry_meta Meta.jfield_id
    lua_setmetatable

  -- the name is only checked not to be null, which a text here never is
  unfoldable pub new_jmonitor : Ptr → (name : String) → Cmd J (Unit {0})
  new_jmonitor monitor name = do
    new_userdata (Content.pointer monitor)
    get_registry_meta Meta.jmonitor
    lua_setmetatable

  -- nil for a null pointer
  unfoldable pub new_jobject : Option Ptr → Cmd J (Unit {0})
  new_jobject none = push Value.nil
  new_jobject (some object) = do
    new_userdata (Content.pointer object)
    get_registry_meta Meta.jobject
    lua_setmetatable

module _ {J : Type 0} ⦃host : Host J⦄ where
  abbrev pub push_chars : Option Ptr → Option String → Cmd J (Unit {0})
  push_chars text none = push Value.nil
  push_chars text (some utf_chars) = do
    push (Value.string utf_chars)
    jni_do (host.jni.release_string_utf_chars text)
    exception_check "java_bridge/types.c" 47

  unfoldable pub new_string : Option Ptr → Cmd J (Unit {0})
  unfolding exception_check
  new_string text = jni_get (host.jni.get_string_utf_chars text) >>= push_chars text
