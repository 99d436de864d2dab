-- ===== src/Lj/Method.antt =====
-- lua_java/lj_method.c: finding a method and asking about it.
use yellow_tree.Common.Int.{ℤ, pos, negsuc}
use yellow_tree.Common.{
  zero, suc, length, ℕ, ◌+◌, Bool, true, false, Option, none, some, String, [], ◌∷◌, List,
  if◌then◌else◌,
}
use yellow_tree.Runtime.Value.{
  Ptr, Value, Buffer, LocalVariableEntry, LineNumberEntry, JvmtiError, absent_information,
  native_method,
}
use yellow_tree.Runtime.Host.{Host}
use yellow_tree.Runtime.World.{Cmd, undefined, pure, ◌>>=◌, ◌>>◌}
use yellow_tree.Runtime.Stack.{
  push, lua_pop, lua_newtable, lua_setfield, lua_rawseti, check_object, check_method, check_string,
}
use yellow_tree.Runtime.Calls.{
  jvmti_get, jvmti_buffers, jvmti_alloc, jni_get, add_buffer, add_variables,
}
use yellow_tree.JniUtil.{free_jvmti_refs, exception_clear}
use yellow_tree.Bridge.{new_jobject, new_jmethod_id}
use yellow_tree.LuaJava.{check_jvmti_error}
use Prim.Native.String.{◌++◌}

-- The two errors after which there is no table, and nil is the answer.
abbrev pub has_no_table : JvmtiError → Bool
has_no_table absent_information = true
has_no_table native_method = true
has_no_table _ = false

-- `sprintf(sig, "(%s)%s", args, ret)`
abbrev pub method_sig : (args ret : String) → String
method_sig args ret = "(" ++ args ++ ")" ++ ret

-- How often a loop runs up to an `int`.
abbrev pub turns : ℤ → ℕ
turns (pos n) = n
turns (negsuc n) = 0

abbrev pub entries_of : Option (Buffer (List LineNumberEntry)) → List LineNumberEntry
entries_of none = []
entries_of (some lines) = lines.contents

abbrev pub lines_at : Option (Buffer (List LineNumberEntry)) → Option Ptr
lines_at none = none
lines_at (some lines) = lines.at

-- `line_count`, which has no initial value, and `lines`, which starts as a null pointer.
abbrev pub line_count : (uninitialised : ℤ) → Option (Buffer (List LineNumberEntry)) → ℕ
line_count uninitialised none = turns uninitialised
line_count uninitialised (some lines) = length lines.contents

module _ {J : Type 0} ⦃host : Host J⦄ where
  abbrev pub static_method_if_none :
      Option Ptr → (klass : Ptr) (method_name sig : String) → Cmd J (Option Ptr)
  static_method_if_none none klass method_name sig =
      jni_get (host.jni.get_static_method_id klass method_name sig)
  static_method_if_none (some id) klass method_name sig = pure (some id)

  abbrev pub push_method : Option Ptr → Cmd J ℕ
  push_method none = push Value.nil >> pure 1
  push_method (some method_id) = new_jmethod_id method_id >> pure 1

  -- `malloc(strlen(args) + strlen(ret) + 10)` has room for the signature and its final zero
  unfoldable pub lj_get_method_id : Cmd J ℕ
  lj_get_method_id = do
    klass ← check_object 1
    method_name ← check_string 2
    args ← check_string 3
    ret ← check_string 4
    lua_pop 4
    let sig = method_sig args ret
    instance_id ← jni_get (host.jni.get_method_id klass method_name sig)
    exception_clear
    method_id ← static_method_if_none instance_id klass method_name sig
    exception_clear
    push_method method_id

  -- one entry of the table, keyed by the variable's name
  unfoldable pub variables_loop : List LocalVariableEntry → Cmd J (Unit {0})
  variables_loop [] = pure tt
  variables_loop (v ∷ vars) = do
    lua_newtable
    push (Value.string v.name.contents)
    lua_setfield "name"
    push (Value.string v.signature.contents)
    lua_setfield "sig"
    push (Value.integer v.start_location)
    lua_setfield "start_location"
    push (Value.integer v.slot)
    lua_setfield "slot"
    lua_setfield v.name.contents
    variables_loop vars

  -- `if (count) free_jvmti_refs(vars)`
  abbrev pub free_if_any : List LocalVariableEntry → Option Ptr → Cmd J (Unit {0})
  free_if_any [] p = pure tt
  free_if_any (_ ∷ _) p = free_jvmti_refs (p ∷ []) >> pure tt

  abbrev pub push_variables : Buffer (List LocalVariableEntry) → Cmd J ℕ
  push_variables vars w =
      if has_no_table w.lj_err
      then (push Value.nil >> pure 1) w
      else (do
        check_jvmti_error "lua_java/lj_method.c" 72 "lj_get_local_variable_table"
        lua_newtable
        variables_loop vars.contents
        free_if_any vars.contents vars.at
        pure 1)
          w

  -- JVMTI allocates the array, and for each entry its name and its signature.
  unfoldable pub lj_get_local_variable_table : Cmd J ℕ
  unfolding variables_loop
  lj_get_local_variable_table = do
    method_id ← check_method 1
    lua_pop 1
    vars ←
        jvmti_alloc (λ b ps. add_variables b.contents (add_buffer b.at ps))
          (host.jvmti.get_local_variable_table method_id)
    push_variables vars

  -- `n` turns are left of the loop from `i` on. Reading an entry that JVMTI did not store, through
  -- the null pointer or beyond the array, has no defined behaviour.
  unfoldable pub lines_loop : (i n : ℕ) → List LineNumberEntry → Cmd J (Unit {0})
  lines_loop i zero lines = pure tt
  lines_loop i (suc n) [] = lua_newtable >> (λ w. undefined w)
  lines_loop i (suc n) (line ∷ lines) = do
    lua_newtable
    push (Value.integer line.start_location)
    lua_setfield "location"
    push (Value.integer line.line_number)
    lua_setfield "line_num"
    lua_rawseti (i + 1)
    lines_loop (i + 1) n lines

  abbrev pub push_lines : Option (Buffer (List LineNumberEntry)) → Cmd J (Unit {0})
  push_lines lines w =
      if has_no_table w.lj_err
      then push Value.nil w
      else (do
        lua_newtable
        lines_loop 0 (line_count host.lua.indeterminate lines) (entries_of lines)
        check_jvmti_error "lua_java/lj_method.c" 128 "lj_get_line_number_table"
        free_jvmti_refs (lines_at lines ∷ [])
        pure tt)
          w

  unfoldable pub lj_get_line_number_table : Cmd J ℕ
  unfolding lines_loop
  lj_get_line_number_table = do
    method_id ← check_method 1
    lua_pop 1
    lines ← jvmti_alloc (λ b. add_buffer (lines_at b)) (host.jvmti.get_line_number_table method_id)
    push_lines lines
    pure 1

  unfoldable pub lj_get_method_name : Cmd J ℕ
  lj_get_method_name = do
    method_id ← check_method 1
    lua_pop 1
    (method_name, sig) ← jvmti_buffers (host.jvmti.get_method_name method_id)
    check_jvmti_error "lua_java/lj_method.c" 146 "lj_get_method_name"
    lua_newtable
    push (Value.string method_name.contents)
    lua_setfield "name"
    push (Value.string sig.contents)
    lua_setfield "sig"
    free_jvmti_refs (method_name.at ∷ sig.at ∷ [])
    pure 1

  unfoldable pub lj_get_method_declaring_class : Cmd J ℕ
  lj_get_method_declaring_class = do
    method_id ← check_method 1
    lua_pop 1
    klass ← jvmti_get (host.jvmti.get_method_declaring_class method_id)
    check_jvmti_error "lua_java/lj_method.c" 169 "lj_get_method_declaring_class"
    new_jobject klass
    pure 1

  unfoldable pub lj_get_method_modifiers : Cmd J ℕ
  lj_get_method_modifiers = do
    method_id ← check_method 1
    lua_pop 1
    modifiers ← jvmti_get (host.jvmti.get_method_modifiers method_id)
    check_jvmti_error "lua_java/lj_method.c" 185 "lj_get_method_modifiers"
    push (Value.integer modifiers)
    pure 1
