-- ===== src/Results/Commands.antt =====
-- The C functions by the names under which Lua finds them.
use yellow_tree.Common.{ℕ, Option, none, some, List, [], ◌∷◌, String, str_eq, if◌then◌else◌}
use yellow_tree.Runtime.Host.{Host}
use yellow_tree.Runtime.World.{Cmd}
use yellow_tree.LuaJava.Local.{lj_get_local_variable}
use yellow_tree.LuaJava.Array.{lj_get_array_length, lj_get_array_element, lj_set_array_element}
use yellow_tree.LuaJava.Call.{lj_call_method}
use yellow_tree.LuaJava.Breakpoint.{lj_set_breakpoint, lj_clear_breakpoint}
use yellow_tree.LuaJava.GetField.{lj_get_field}
use yellow_tree.LuaJava.Thread.{
  lj_pointer_to_string, lj_to_string, lj_get_current_thread, lj_get_all_threads, lj_new_global_ref,
  lj_delete_global_ref,
}
use yellow_tree.Lj.Modifiers.{lj_get_field_modifiers_table, lj_get_method_modifiers_table}
use yellow_tree.Lj.RawMonitor.{
  lj_create_raw_monitor, lj_destroy_raw_monitor, lj_raw_monitor_enter, lj_raw_monitor_exit,
  lj_raw_monitor_wait, lj_raw_monitor_notify, lj_raw_monitor_notify_all,
}
use yellow_tree.Lj.EarlyReturn.{
  lj_force_early_return_object, lj_force_early_return_int, lj_force_early_return_long,
  lj_force_early_return_float, lj_force_early_return_double, lj_force_early_return_void,
}
use yellow_tree.Lj.Method.{
  lj_get_method_id, lj_get_local_variable_table, lj_get_line_number_table, lj_get_method_name,
  lj_get_method_declaring_class, lj_get_method_modifiers,
}
use yellow_tree.Lj.Class.{
  lj_find_class, lj_get_class_fields, lj_get_class_methods, lj_get_source_filename,
  lj_get_loaded_classes, lj_get_class_instances,
}
use yellow_tree.Lj.Field.{
  lj_get_field_id, lj_get_field_name, lj_get_field_declaring_class, lj_get_field_modifiers,
}
use yellow_tree.Lj.StackFrame.{lj_get_frame_count, lj_get_stack_frame}
use yellow_tree.Lj.Watch.{lj_set_field_access_watch, lj_set_field_modification_watch}
use yellow_tree.Event.Registry.{lj_set_jvmti_callback, lj_clear_jvmti_callback}

abbrev pub find : {A : Type 0} → String → List (String × A) → Option A
find s [] = none
find s ((n, a) ∷ rest) = if str_eq s n then some a else find s rest

module _ {J : Type 0} ⦃host : Host J⦄ where
  abbrev pub commands : List (String × Cmd J ℕ)
  commands =
      ("lj_find_class", lj_find_class)
      ∷ ("lj_get_class_fields", lj_get_class_fields)
      ∷ ("lj_get_class_methods", lj_get_class_methods)
      ∷ ("lj_get_source_filename", lj_get_source_filename)
      ∷ ("lj_get_loaded_classes", lj_get_loaded_classes)
      ∷ ("lj_get_class_instances", lj_get_class_instances)
      ∷ ("lj_get_field_id", lj_get_field_id)
      ∷ ("lj_get_field_name", lj_get_field_name)
      ∷ ("lj_get_field_declaring_class", lj_get_field_declaring_class)
      ∷ ("lj_get_field_modifiers", lj_get_field_modifiers)
      ∷ ("lj_get_field_modifiers_table", lj_get_field_modifiers_table)
      ∷ ("lj_force_early_return_object", lj_force_early_return_object)
      ∷ ("lj_force_early_return_int", lj_force_early_return_int)
      ∷ ("lj_force_early_return_long", lj_force_early_return_long)
      ∷ ("lj_force_early_return_float", lj_force_early_return_float)
      ∷ ("lj_force_early_return_double", lj_force_early_return_double)
      ∷ ("lj_force_early_return_void", lj_force_early_return_void)
      ∷ ("lj_get_method_id", lj_get_method_id)
      ∷ ("lj_get_local_variable_table", lj_get_local_variable_table)
      ∷ ("lj_get_line_number_table", lj_get_line_number_table)
      ∷ ("lj_get_method_name", lj_get_method_name)
      ∷ ("lj_get_method_declaring_class", lj_get_method_declaring_class)
      ∷ ("lj_get_method_modifiers", lj_get_method_modifiers)
      ∷ ("lj_get_method_modifiers_table", lj_get_method_modifiers_table)
      ∷ ("lj_create_raw_monitor", lj_create_raw_monitor)
      ∷ ("lj_destroy_raw_monitor", lj_destroy_raw_monitor)
      ∷ ("lj_raw_monitor_enter", lj_raw_monitor_enter)
      ∷ ("lj_raw_monitor_exit", lj_raw_monitor_exit)
      ∷ ("lj_raw_monitor_wait", lj_raw_monitor_wait)
      ∷ ("lj_raw_monitor_notify", lj_raw_monitor_notify)
      ∷ ("lj_raw_monitor_notify_all", lj_raw_monitor_notify_all)
      ∷ ("lj_get_frame_count", lj_get_frame_count)
      ∷ ("lj_get_stack_frame", lj_get_stack_frame)
      ∷ ("lj_set_field_access_watch", lj_set_field_access_watch)
      ∷ ("lj_set_field_modification_watch", lj_set_field_modification_watch)
      ∷ ("lj_set_breakpoint", lj_set_breakpoint)
      ∷ ("lj_clear_breakpoint", lj_clear_breakpoint)
      ∷ ("lj_get_local_variable", lj_get_local_variable)
      ∷ ("lj_pointer_to_string", lj_pointer_to_string)
      ∷ ("lj_call_method", lj_call_method)
      ∷ ("lj_toString", lj_to_string)
      ∷ ("lj_get_field", lj_get_field)
      ∷ ("lj_get_current_thread", lj_get_current_thread)
      ∷ ("lj_get_all_threads", lj_get_all_threads)
      ∷ ("lj_get_array_length", lj_get_array_length)
      ∷ ("lj_get_array_element", lj_get_array_element)
      ∷ ("lj_set_array_element", lj_set_array_element)
      ∷ ("lj_new_global_ref", lj_new_global_ref)
      ∷ ("lj_delete_global_ref", lj_delete_global_ref)
      ∷ ("lj_set_jvmti_callback", lj_set_jvmti_callback)
      ∷ ("lj_clear_jvmti_callback", lj_clear_jvmti_callback)
      ∷ []

  -- The function that runs when Lua calls a `c_function` of this name.
  abbrev pub command_of : String → Option (Cmd J ℕ)
  command_of s = find s commands
