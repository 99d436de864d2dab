-- ===== src/Runtime/Jvmti.antt =====
-- The JVM Tool Interface: the functions of `jvmtiEnv` that the agent calls, as a parameter. `J` is
-- the state of the JVM. Each function answers with its error code, the values that it stores through
-- its pointer arguments, and the new state.
use yellow_tree.Common.{ℕ, Option, List, String}
use yellow_tree.Common.Int.{ℤ}
use yellow_tree.Runtime.Value.{
  Ptr, Buffer, FrameInfo, LocalVariableEntry, LineNumberEntry, JvmtiError, EventMode, EventType,
  EventCallbacks,
}

pub record Jvmti (J : Type 0) : Type 0 where
  -- breakpoints and watches
  pub set_breakpoint : (method : Ptr) (location : ℤ) → J → JvmtiError × J
  pub clear_breakpoint : (method : Ptr) (location : ℤ) → J → JvmtiError × J
  pub set_field_access_watch : (klass field_id : Ptr) → J → JvmtiError × J
  pub set_field_modification_watch : (klass field_id : Ptr) → J → JvmtiError × J
  -- local variables of a frame
  pub get_local_int : (thread : Ptr) (depth slot : ℤ) → J → JvmtiError × ℤ × J
  pub get_local_long : (thread : Ptr) (depth slot : ℤ) → J → JvmtiError × ℤ × J
  pub get_local_float : (thread : Ptr) (depth slot : ℤ) → J → JvmtiError × ℕ × J
  pub get_local_double : (thread : Ptr) (depth slot : ℤ) → J → JvmtiError × ℕ × J
  pub get_local_object : (thread : Ptr) (depth slot : ℤ) → J → JvmtiError × Option Ptr × J
  -- methods
  pub get_method_name : Ptr → J → JvmtiError × (Buffer String × Buffer String) × J
  pub get_method_declaring_class : Ptr → J → JvmtiError × Option Ptr × J
  pub get_method_modifiers : Ptr → J → JvmtiError × ℤ × J
  pub get_local_variable_table : Ptr → J → JvmtiError × Buffer (List LocalVariableEntry) × J
  -- `none` where it stores neither the count nor the table
  pub get_line_number_table : Ptr → J → JvmtiError × Option (Buffer (List LineNumberEntry)) × J
  -- fields
  pub get_field_name : (klass field_id : Ptr) → J → JvmtiError × (Buffer String × Buffer String) × J
  pub get_field_declaring_class : (klass field_id : Ptr) → J → JvmtiError × Option Ptr × J
  pub get_field_modifiers : (klass field_id : Ptr) → J → JvmtiError × ℤ × J
  -- classes
  pub get_class_fields : Ptr → J → JvmtiError × Buffer (List Ptr) × J
  pub get_class_methods : Ptr → J → JvmtiError × Buffer (List Ptr) × J
  pub get_source_file_name : Ptr → J → JvmtiError × Buffer String × J
  pub get_loaded_classes : J → JvmtiError × Buffer (List Ptr) × J
  pub get_class_signature : Ptr → J → JvmtiError × Buffer String × J
  -- the callback gets the tag of a class, and the size, the tag and the length of an object; it
  -- answers with the object's new tag and a number that says how to go on
  pub iterate_through_heap :
      (klass : Ptr) (callback : (class_tag size tag length : ℤ) → ℤ × ℤ) → J → JvmtiError × J
  pub get_objects_with_tags : (tag : ℤ) → J → JvmtiError × (Buffer (List Ptr) × Buffer (List ℤ)) × J
  -- threads and frames
  pub get_all_threads : J → JvmtiError × Buffer (List Ptr) × J
  pub get_frame_count : (thread : Ptr) → J → JvmtiError × ℤ × J
  pub get_stack_trace : (thread : Ptr) (start max : ℤ) → J → JvmtiError × List FrameInfo × J
  pub force_early_return_object : (thread : Ptr) → Option Ptr → J → JvmtiError × J
  pub force_early_return_int : (thread : Ptr) → ℤ → J → JvmtiError × J
  pub force_early_return_void : (thread : Ptr) → J → JvmtiError × J
  -- raw monitors
  pub create_raw_monitor : String → J → JvmtiError × Ptr × J
  pub destroy_raw_monitor : Ptr → J → JvmtiError × J
  pub raw_monitor_enter : Ptr → J → JvmtiError × J
  pub raw_monitor_exit : Ptr → J → JvmtiError × J
  pub raw_monitor_wait : Ptr → ℤ → J → JvmtiError × J
  pub raw_monitor_notify : Ptr → J → JvmtiError × J
  pub raw_monitor_notify_all : Ptr → J → JvmtiError × J
  -- events and memory
  pub set_event_notification_mode : EventMode → EventType → Option Ptr → J → JvmtiError × J
  pub set_event_callbacks : EventCallbacks → J → JvmtiError × J
  pub deallocate : Ptr → J → JvmtiError × J
  -- the name and its buffer; `none` where the call fails
  pub get_error_name : JvmtiError → J → Option (Ptr × String) × J
