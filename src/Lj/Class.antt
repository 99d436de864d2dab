-- ===== src/Lj/Class.antt =====
-- lua_java/lj_class.c: classes, their members and their instances.
use yellow_tree.Common.{
  ℕ, ◌+◌, Bool, true, false, Option, none, some, String, [], ◌∷◌, List, if◌then◌else◌, ◌^◌,
}
use yellow_tree.Common.Int.{ℤ, pos, negsuc, narrow, ◌-ℤ◌}
use yellow_tree.Runtime.Value.{Ptr, Value, Buffer, JvmtiError, absent_information}
use yellow_tree.Runtime.Host.{Host}
use yellow_tree.Runtime.World.{Cmd, ok, pure, ◌>>=◌, ◌>>◌, print}
use yellow_tree.Runtime.Stack.{
  push, lua_pop, lua_newtable, lua_rawseti, lua_rawset, check_object, check_string,
}
use yellow_tree.Runtime.Calls.{jvmti_call, jvmti_buffer, jvmti_buffers, jni_get, jni_do}
use yellow_tree.JniUtil.{free_jvmti_refs, exception_check}
use yellow_tree.Bridge.{new_jobject, new_jmethod_id, new_jfield_id}
use yellow_tree.LuaJava.{check_jvmti_error}
use Prim.Native.String.{◌++◌}
use yellow_tree.Common.{length}

abbrev pub is_absent : JvmtiError → Bool
is_absent absent_information = true
is_absent _ = false

abbrev pub loading_message : String → String
loading_message count = "lj_get_loaded_classes: (Loading " ++ count ++ " classes)\n"

abbrev pub following_tag : ℤ → ℤ
following_tag tag = narrow (2 ^ 64) (tag -ℤ negsuc 0)

-- It reads the global tag, which no other code changes during the walk, writes it through
-- `tag_ptr`, and answers 0.
abbrev pub heap_iter_tag_item :
    (class_instances_search_tag : ℤ) → (class_tag size tag length : ℤ) → ℤ × ℤ
heap_iter_tag_item class_instances_search_tag class_tag size tag length =
    (class_instances_search_tag, pos 0)

module _ {J : Type 0} ⦃host : Host J⦄ where
  abbrev pub found_class : Option Ptr → Cmd J ℕ
  found_class none = jni_do host.jni.exception_clear >> push Value.nil >> pure 1
  found_class (some klass) = new_jobject (some klass) >> pure 1

  unfoldable pub lj_find_class : Cmd J ℕ
  lj_find_class = do
    class_name ← check_string 1
    lua_pop 1
    klass ← jni_get (host.jni.find_class class_name)
    found_class klass

  -- `for (i = 0; i < field_count; ++i)`, from `i` on
  unfoldable pub fields_loop : (klass : Ptr) → (i : ℕ) → List Ptr → Cmd J (Unit {0})
  fields_loop klass i [] = pure tt
  fields_loop klass i (field ∷ fields) = do
    new_jfield_id field klass
    lua_rawseti (i + 1)
    fields_loop klass (i + 1) fields

  -- `if (p) free_jvmti_refs(p)`
  abbrev pub free_if_some : Option Ptr → Cmd J (Unit {0})
  free_if_some none = pure tt
  free_if_some (some p) = free_jvmti_refs (some p ∷ []) >> pure tt

  unfoldable pub lj_get_class_fields : Cmd J ℕ
  unfolding fields_loop
  lj_get_class_fields = do
    klass ← check_object 1
    lua_pop 1
    fields ← jvmti_buffer (host.jvmti.get_class_fields klass)
    check_jvmti_error "lua_java/lj_class.c" 49 "lj_get_class_fields"
    lua_newtable
    fields_loop klass 0 fields.contents
    free_if_some fields.at
    pure 1

  unfoldable pub methods_loop : (i : ℕ) → List Ptr → Cmd J (Unit {0})
  methods_loop i [] = pure tt
  methods_loop i (method ∷ methods) = do
    new_jmethod_id method
    lua_rawseti (i + 1)
    methods_loop (i + 1) methods

  unfoldable pub lj_get_class_methods : Cmd J ℕ
  unfolding methods_loop
  lj_get_class_methods = do
    klass ← check_object 1
    lua_pop 1
    methods ← jvmti_buffer (host.jvmti.get_class_methods klass)
    check_jvmti_error "lua_java/lj_class.c" 76 "lj_get_class_methods"
    lua_newtable
    methods_loop 0 methods.contents
    free_if_some methods.at
    pure 1

  abbrev pub push_source : Buffer String → Cmd J (Unit {0})
  push_source sourcefile w =
      if is_absent w.lj_err
      then push Value.nil w
      else (do
        check_jvmti_error "lua_java/lj_class.c" 107 "lj_get_source_filename"
        push (Value.string sourcefile.contents)
        free_jvmti_refs (sourcefile.at ∷ [])
        pure tt)
          w

  unfoldable pub lj_get_source_filename : Cmd J ℕ
  lj_get_source_filename = do
    klass ← check_object 1
    lua_pop 1
    sourcefile ← jvmti_buffer (host.jvmti.get_source_file_name klass)
    push_source sourcefile
    pure 1

  -- The table is indexed with the internal names.
  unfoldable pub classes_loop : List Ptr → Cmd J (Unit {0})
  classes_loop [] = pure tt
  classes_loop (klass ∷ classes) = do
    class_sig ← jvmti_buffer (host.jvmti.get_class_signature klass)
    check_jvmti_error "lua_java/lj_class.c" 135 "lj_get_loaded_classes"
    push (Value.string class_sig.contents)
    global_ref ← jni_get (host.jni.new_global_ref klass)
    new_jobject global_ref
    exception_check "lua_java/lj_class.c" 138
    lua_rawset
    free_jvmti_refs (class_sig.at ∷ [])
    classes_loop classes

  unfoldable pub lj_get_loaded_classes : Cmd J ℕ
  unfolding classes_loop
  lj_get_loaded_classes = do
    classes ← jvmti_buffer host.jvmti.get_loaded_classes
    check_jvmti_error "lua_java/lj_class.c" 125 "lj_get_loaded_classes"
    print (loading_message (host.lua.format_d (pos (length classes.contents))))
    lua_newtable
    classes_loop classes.contents
    free_if_some classes.at
    pure 1

  -- `class_instances_search_tag++` on a `jlong`
  abbrev next_tag : Cmd J ℤ
  next_tag w = let tag = following_tag w.search_tag in ok tag (record w { search_tag = tag })

  unfoldable pub instances_loop : (i : ℕ) → List Ptr → Cmd J (Unit {0})
  instances_loop i [] = pure tt
  instances_loop i (obj ∷ objs) = do
    global_ref ← jni_get (host.jni.new_global_ref obj)
    new_jobject global_ref
    exception_check "lua_java/lj_class.c" 193
    lua_rawseti (i + 1)
    instances_loop (i + 1) objs

  abbrev pub free_both_if_some : Option Ptr → Option Ptr → Cmd J (Unit {0})
  free_both_if_some none tags = pure tt
  free_both_if_some (some p) tags = free_jvmti_refs (some p ∷ tags ∷ []) >> pure tt

  unfoldable pub lj_get_class_instances : Cmd J ℕ
  unfolding instances_loop
  lj_get_class_instances = do
    klass ← check_object 1
    lua_pop 1
    tag ← next_tag
    jvmti_call (host.jvmti.iterate_through_heap klass (heap_iter_tag_item tag))
    check_jvmti_error "lua_java/lj_class.c" 183 "lj_get_class_instances"
    (objs, tags) ← jvmti_buffers (host.jvmti.get_objects_with_tags tag)
    check_jvmti_error "lua_java/lj_class.c" 187 "lj_get_class_instances"
    lua_newtable
    instances_loop 0 objs.contents
    free_both_if_some objs.at tags.at
    pure 1
