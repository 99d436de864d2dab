-- ===== src/Tests/Queries.antt =====
-- The theorems on the functions that ask about classes, members and frames, applied to the small JVM.
use yellow_tree.Common.{◌+◌, false, none, some, [], ◌∷◌, ◌≡◌, refl, arith}
use yellow_tree.Common.Int.{pos}
use yellow_tree.Runtime.Value.{
  Value, Fields, Key, empty, index, get, object, method, field_of, LocalVariableEntry,
}
use yellow_tree.Runtime.World.{World, ok, enter}
use yellow_tree.Lj.Class.{lj_get_class_fields, lj_get_loaded_classes, loading_message}
use yellow_tree.Lj.Method.{lj_get_method_id, lj_get_local_variable_table, lj_get_line_number_table}
use yellow_tree.Lj.Field.{lj_get_field_id}
use yellow_tree.Lj.StackFrame.{lj_get_stack_frame}
use yellow_tree.Lj.Modifiers.{lj_get_field_modifiers_table, lj_get_method_modifiers_table}
use yellow_tree.Lj.Members.{class_fields_table, line_table, line_value}
use yellow_tree.Lj.Buffers.{variable_fields, variable_table-leaks}
use yellow_tree.Lj.ClassTable.{loaded_classes_table}
use yellow_tree.Lj.Lookup.{method_lookup, field_lookup}
use yellow_tree.Lj.Frames.{frame_value, stack_frame-answer}
use yellow_tree.Lj.Flags.{
  flag_table, field_flags, method_flags, field_table-bits, method_table-bits,
}
use yellow_tree.Tests.Demo.{Jvm, demo_host, start, buffer}

class_fields_table_example :
    (t : Fields) × (v : World Jvm) × (lj_get_class_fields (enter (object 21 ∷ []) start) ≡ ok 1 v)
    × (v.frame ≡ Value.table t ∷ [])
    × (v.buffers ≡ [])
    × (get (index 2) t ≡ some (field_of 32 21))
class_fields_table_example = class_fields_table 21 108 (31 ∷ 32 ∷ []) start.jvm 1 start refl

line_table_example :
    (t : Fields) × (v : World Jvm) × (lj_get_line_number_table (enter (method 41 ∷ []) start)
      ≡ ok 1 v)
    × (v.frame ≡ Value.table t ∷ [])
    × (v.buffers ≡ [])
    × (get (index 1) t ≡ some (line_value (record { start_location = pos 0; line_number = pos 3 })))
line_table_example =
    line_table 41 105 (record { start_location = pos 0; line_number = pos 3 } ∷ []) start.jvm 0
      start refl

abbrev variable_x : LocalVariableEntry
variable_x = record {
  name = buffer 103 "x";
  signature = buffer 104 "I";
  start_location = pos 0;
  slot = pos 1;
}

variable_table-leaks_example :
    lj_get_local_variable_table (enter (method 41 ∷ []) start)
    ≡ ok 1 (record start {
      frame = Value.table (variable_fields (variable_x ∷ []) empty) ∷ [];
      buffers = 104 ∷ 103 ∷ [];
    })
variable_table-leaks_example = variable_table-leaks 41 102 variable_x [] start.jvm start refl refl

loaded_classes_table_example :
    (t : Fields) × (lj_get_loaded_classes (enter [] start)
      ≡ ok 1 (record start {
        frame = Value.table t ∷ [];
        printed = loading_message (demo_host.lua.format_d (pos 2)) ∷ [];
      }))
    × (get (Key.name "LTest;") t ≡ some (object 1052))
loaded_classes_table_example =
    loaded_classes_table (λ k j. (200 + k, "LTest;", j)) (λ k j. refl) (λ o j. refl) 111
      (51 ∷ 52 ∷ []) "LTest;" (object 1052) (("LTest;", object 1051) ∷ []) [] start.jvm start refl
      refl refl

method_lookup_example :
    (v : World Jvm) × (lj_get_method_id
        (enter (Value.string "V" ∷ Value.string "" ∷ Value.string "run" ∷ object 21 ∷ []) start)
      ≡ ok 1 v)
    × (v.frame ≡ method 2 ∷ [])
    × (demo_host.jni.exception_check v.jvm ≡ false)
method_lookup_example =
    method_lookup (λ j. refl) 21 "run" "" "V" none (some 2) start.jvm start.jvm start refl refl

field_lookup_example :
    (v : World Jvm) × (lj_get_field_id
        (enter (Value.string "I" ∷ Value.string "size" ∷ Value.string "Test" ∷ []) start)
      ≡ ok 1 v)
    × (v.frame ≡ field_of 3 1 ∷ [])
    × (demo_host.jni.exception_check v.jvm ≡ false)
field_lookup_example =
    field_lookup (λ j. refl) 1 "Test" "size" "I" none (some 3) start.jvm start.jvm start.jvm start
      refl refl refl

stack_frame-answer_example :
    lj_get_stack_frame (enter (Value.integer (pos 1) ∷ object 7 ∷ []) start)
    ≡ ok 1 (record start {
      frame = frame_value 1 (some (record { method = 81; location = pos 4 })) ∷ [];
    })
stack_frame-answer_example =
    stack_frame-answer 7 0 (some (record { method = 81; location = pos 4 })) start.jvm start
      (omega arith) refl

field_table-bits_example :
    lj_get_field_modifiers_table (enter (Value.integer (pos 66) ∷ []) start)
    ≡ ok 1 (record start { frame = Value.table (flag_table field_flags (pos 66)) ∷ [] })
field_table-bits_example = field_table-bits (pos 66) start

method_table-bits_example :
    lj_get_method_modifiers_table (enter (Value.integer (pos 9) ∷ []) start)
    ≡ ok 1 (record start { frame = Value.table (flag_table method_flags (pos 9)) ∷ [] })
method_table-bits_example = method_table-bits (pos 9) start
