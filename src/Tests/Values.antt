-- ===== src/Tests/Values.antt =====
-- The theorems on local variables, fields, arrays and threads, applied to the small JVM.
use yellow_tree.Common.{false, some, [], ◌∷◌, ◌≡◌, refl, arith}
use yellow_tree.Common.Int.{pos, narrow}
use yellow_tree.Runtime.Value.{
  error_none, Value, Fields, JValue, index, get, object, method, field_of,
}
use yellow_tree.Runtime.Host.{Host}
use yellow_tree.Runtime.World.{World, ok, enter, and_then}
use yellow_tree.LuaJava.Local.{lj_get_local_variable}
use yellow_tree.LuaJava.Locals
use yellow_tree.LuaJava.Locals.{local_variable-answer}
use yellow_tree.LuaJava.Threads.{all_threads_table}
use yellow_tree.LuaJava.Thread.{lj_get_all_threads}
use yellow_tree.LuaJava.GetField.{lj_get_field}
use yellow_tree.LuaJava.Array.{lj_get_array_element, lj_set_array_element}
use yellow_tree.LuaJava.Values.{bytes, converted, array_integer-roundtrip}
use yellow_tree.LuaJava.Fields.{field_value-leaks}
use yellow_tree.LuaJava.Call.{lj_call_method}
use yellow_tree.LuaJava.Return.{string_result}
use yellow_tree.LuaJava.Calling.{call_method-answer}
use yellow_tree.LuaJava.Arguments.{byte_argument, string_argument}
use yellow_tree.Tests.Demo.{Jvm, demo_host, start, buffer}

local_variable-answer_example :
    lj_get_local_variable (
      enter
        (Value.string "Ljava/lang/Object;" ∷ Value.integer (pos 1) ∷ Value.integer (pos 2) ∷ [])
        start)
    ≡ ok 1 (record start { frame = object 11 ∷ [] })
local_variable-answer_example =
    local_variable-answer (Locals.class_type "java/lang/Object;") 1007 1 1 error_none (object 11)
      start.jvm start (omega arith) (omega arith) refl refl refl

all_threads_table_example :
    (t : Fields) × (v : World Jvm) × (lj_get_all_threads (enter [] start) ≡ ok 1 v)
    × (v.frame ≡ Value.table t ∷ [])
    × (v.buffers ≡ [])
    × (get (index 1) t ≡ some (object 71))
all_threads_table_example = all_threads_table 114 (71 ∷ []) start.jvm 0 start refl

field_value-leaks_example :
    lj_get_field (enter (Value.boolean false ∷ field_of 31 21 ∷ object 61 ∷ []) start)
    ≡ ok 1 (record start { frame = Value.integer (pos 0) ∷ []; buffers = 107 ∷ [] })
field_value-leaks_example =
    field_value-leaks Locals.int 61 31 21 107 false (buffer 106 "size") JValue.zeroed start.jvm
      start.jvm start refl refl refl

-- An array that holds the byte 44, which is what storing 300 leaves.
abbrev array_host : Host Jvm
array_host = record demo_host {
  jni = record demo_host.jni { get_array_element = λ t a i j. (JValue.b (pos 44), j) };
}

narrow-300 : narrow 256 (pos 300) ≡ pos 44
unfolding narrow
narrow-300 = refl

array_integer-roundtrip_example :
    and_then
      (lj_set_array_element ⦃host = array_host⦄ (
        enter
          (Value.integer (pos 300) ∷ Value.integer (pos 1) ∷ Value.string "[B" ∷ object 61 ∷ [])
          start))
      (λ _ v.
        lj_get_array_element ⦃host = array_host⦄
          (enter (Value.integer (pos 1) ∷ Value.string "[B" ∷ object 61 ∷ []) v))
    ≡ ok 1 (record start { frame = Value.integer (converted bytes (pos 300)) ∷ [] })
array_integer-roundtrip_example =
    array_integer-roundtrip ⦃host = array_host⦄ bytes 61 (pos 1) (pos 300) start.jvm start
      (rw narrow-300 refl) refl refl

call_method-answer_example :
    lj_call_method (
      enter
        (Value.string "key"
          ∷ Value.string "STR"
          ∷ Value.integer (pos 300)
          ∷ Value.string "B"
          ∷ Value.integer (pos 2)
          ∷ Value.string "STR"
          ∷ Value.boolean false
          ∷ method 41
          ∷ object 61
          ∷ [])
        start)
    ≡ ok 1 (record start { frame = Value.string "text" ∷ [] })
call_method-answer_example =
    call_method-answer 61 41 100 false string_result
      (byte_argument (pos 300) ∷ string_argument "key" ∷ []) "run" (buffer 101 "()V") JValue.zeroed
      start.jvm start.jvm start (omega arith) refl refl refl refl
