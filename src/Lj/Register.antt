-- ===== src/Lj/Register.antt =====
-- The functions lj_..._register at the end of each file of lua_java/: they give Lua the C functions.
use yellow_tree.Runtime.World.{Cmd, ◌>>◌}
use yellow_tree.Runtime.Globals.{lua_register}

module _ {J : Type 0} where
  unfoldable pub lj_class_register : Cmd J (Unit {0})
  lj_class_register = do
    lua_register "lj_find_class" "lj_find_class"
    lua_register "lj_get_class_fields" "lj_get_class_fields"
    lua_register "lj_get_class_methods" "lj_get_class_methods"
    lua_register "lj_get_source_filename" "lj_get_source_filename"
    lua_register "lj_get_loaded_classes" "lj_get_loaded_classes"
    lua_register "lj_get_class_instances" "lj_get_class_instances"

  unfoldable pub lj_field_register : Cmd J (Unit {0})
  lj_field_register = do
    lua_register "lj_get_field_id" "lj_get_field_id"
    lua_register "lj_get_field_name" "lj_get_field_name"
    lua_register "lj_get_field_declaring_class" "lj_get_field_declaring_class"
    lua_register "lj_get_field_modifiers" "lj_get_field_modifiers"
    lua_register "lj_get_field_modifiers_table" "lj_get_field_modifiers_table"

  unfoldable pub lj_force_early_return_register : Cmd J (Unit {0})
  lj_force_early_return_register = do
    lua_register "lj_force_early_return_object" "lj_force_early_return_object"
    lua_register "lj_force_early_return_int" "lj_force_early_return_int"
    lua_register "lj_force_early_return_long" "lj_force_early_return_long"
    lua_register "lj_force_early_return_float" "lj_force_early_return_float"
    lua_register "lj_force_early_return_double" "lj_force_early_return_double"
    lua_register "lj_force_early_return_void" "lj_force_early_return_void"

  unfoldable pub lj_method_register : Cmd J (Unit {0})
  lj_method_register = do
    lua_register "lj_get_method_id" "lj_get_method_id"
    lua_register "lj_get_local_variable_table" "lj_get_local_variable_table"
    lua_register "lj_get_line_number_table" "lj_get_line_number_table"
    lua_register "lj_get_method_name" "lj_get_method_name"
    lua_register "lj_get_method_declaring_class" "lj_get_method_declaring_class"
    lua_register "lj_get_method_modifiers" "lj_get_method_modifiers"
    lua_register "lj_get_method_modifiers_table" "lj_get_method_modifiers_table"

  unfoldable pub lj_raw_monitor_register : Cmd J (Unit {0})
  lj_raw_monitor_register = do
    lua_register "lj_create_raw_monitor" "lj_create_raw_monitor"
    lua_register "lj_destroy_raw_monitor" "lj_destroy_raw_monitor"
    lua_register "lj_raw_monitor_enter" "lj_raw_monitor_enter"
    lua_register "lj_raw_monitor_exit" "lj_raw_monitor_exit"
    lua_register "lj_raw_monitor_wait" "lj_raw_monitor_wait"
    lua_register "lj_raw_monitor_notify" "lj_raw_monitor_notify"
    lua_register "lj_raw_monitor_notify_all" "lj_raw_monitor_notify_all"

  unfoldable pub lj_stack_frame_register : Cmd J (Unit {0})
  lj_stack_frame_register = do
    lua_register "lj_get_frame_count" "lj_get_frame_count"
    lua_register "lj_get_stack_frame" "lj_get_stack_frame"

  unfoldable pub lj_watch_register : Cmd J (Unit {0})
  lj_watch_register = do
    lua_register "lj_set_field_access_watch" "lj_set_field_access_watch"
    lua_register "lj_set_field_modification_watch" "lj_set_field_modification_watch"
