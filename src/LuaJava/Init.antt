-- ===== src/LuaJava/Init.antt =====
-- lua_java.c: `lj_init`, which gives Lua all C functions and makes the agent ready for events.
use yellow_tree.Common.{List, [], ◌∷◌, String, if◌then◌else◌, ◌≡◌, refl, some, none}
use yellow_tree.Runtime.Value.{Value, error_none, Key, get, enable, breakpoint}
use yellow_tree.Runtime.Host.{Host}
use yellow_tree.Runtime.World.{World, Cmd, ok, ◌>>◌}
use yellow_tree.Runtime.Calls.{jvmti_call}
use yellow_tree.Runtime.Globals.{lua_register, register_all, is_among}
use yellow_tree.Runtime.Lookup.{get-register_all}
use yellow_tree.JniUtil.{ev_enablet}
use yellow_tree.LuaJava.{check_jvmti_error}
use yellow_tree.Event.{lj_init_jvmti_event, no_refs, loaded_callbacks}
use yellow_tree.Event.Setting.{Accepts}
use yellow_tree.Event.Reachable.{IsReachable, initially, returned}
use yellow_tree.Lj.Register.{
  lj_class_register, lj_field_register, lj_force_early_return_register, lj_method_register,
  lj_raw_monitor_register, lj_stack_frame_register, lj_watch_register,
}

-- The names that are registered, in order.
abbrev pub exposed_names : List String
exposed_names =
    "lj_find_class" ∷ "lj_get_class_fields" ∷ "lj_get_class_methods" ∷ "lj_get_source_filename"
    ∷ "lj_get_loaded_classes" ∷ "lj_get_class_instances" ∷ "lj_get_field_id" ∷ "lj_get_field_name"
    ∷ "lj_get_field_declaring_class" ∷ "lj_get_field_modifiers" ∷ "lj_get_field_modifiers_table"
    ∷ "lj_force_early_return_object" ∷ "lj_force_early_return_int" ∷ "lj_force_early_return_long"
    ∷ "lj_force_early_return_float" ∷ "lj_force_early_return_double" ∷ "lj_force_early_return_void"
    ∷ "lj_get_method_id" ∷ "lj_get_local_variable_table" ∷ "lj_get_line_number_table"
    ∷ "lj_get_method_name" ∷ "lj_get_method_declaring_class" ∷ "lj_get_method_modifiers"
    ∷ "lj_get_method_modifiers_table" ∷ "lj_create_raw_monitor" ∷ "lj_destroy_raw_monitor"
    ∷ "lj_raw_monitor_enter" ∷ "lj_raw_monitor_exit" ∷ "lj_raw_monitor_wait"
    ∷ "lj_raw_monitor_notify" ∷ "lj_raw_monitor_notify_all" ∷ "lj_get_frame_count"
    ∷ "lj_get_stack_frame" ∷ "lj_set_field_access_watch" ∷ "lj_set_field_modification_watch"
    ∷ "lj_set_breakpoint" ∷ "lj_clear_breakpoint" ∷ "lj_get_local_variable" ∷ "lj_pointer_to_string"
    ∷ "lj_call_method" ∷ "lj_toString" ∷ "lj_get_field" ∷ "lj_get_current_thread"
    ∷ "lj_get_all_threads" ∷ "lj_get_array_length" ∷ "lj_get_array_element" ∷ "lj_set_array_element"
    ∷ "lj_new_global_ref" ∷ "lj_delete_global_ref" ∷ "lj_set_jvmti_callback"
    ∷ "lj_clear_jvmti_callback" ∷ []

module _ {J : Type 0} ⦃host : Host J⦄ where
  -- The JVM and its environment that are saved for `current_jni` and `current_jvmti` are the
  -- interface `Host` here, and `lj_L` is the stack of the state.
  unfoldable pub lj_init : Cmd J (Unit {0})
  unfolding lj_class_register
  lj_init = do
    lj_class_register
    lj_field_register
    lj_force_early_return_register
    lj_method_register
    lj_raw_monitor_register
    lj_stack_frame_register
    lj_watch_register
    lua_register "lj_set_breakpoint" "lj_set_breakpoint"
    lua_register "lj_clear_breakpoint" "lj_clear_breakpoint"
    lua_register "lj_get_local_variable" "lj_get_local_variable"
    lua_register "lj_pointer_to_string" "lj_pointer_to_string"
    lua_register "lj_call_method" "lj_call_method"
    lua_register "lj_toString" "lj_toString"
    lua_register "lj_get_field" "lj_get_field"
    lua_register "lj_get_current_thread" "lj_get_current_thread"
    lua_register "lj_get_all_threads" "lj_get_all_threads"
    lua_register "lj_get_array_length" "lj_get_array_length"
    lua_register "lj_get_array_element" "lj_get_array_element"
    lua_register "lj_set_array_element" "lj_set_array_element"
    lua_register "lj_new_global_ref" "lj_new_global_ref"
    lua_register "lj_delete_global_ref" "lj_delete_global_ref"
    lua_register "lj_set_jvmti_callback" "lj_set_jvmti_callback"
    lua_register "lj_clear_jvmti_callback" "lj_clear_jvmti_callback"
    jvmti_call (ev_enablet breakpoint none)
    check_jvmti_error "lua_java.c" 884 "lj_init"
    lj_init_jvmti_event

  abbrev pub after_init : World J → World J
  after_init w = record w {
    jvm = (host.jvmti.set_event_notification_mode enable breakpoint none w.jvm).1;
    lj_err = error_none;
    globals = register_all exposed_names w.globals;
    callback_refs = no_refs;
  }

  pub lj_init_lem : (acc : Accepts host) (w : World J) → lj_init w ≡ ok tt (after_init w)
  unfolding lj_init lj_class_register lj_field_register lj_force_early_return_register
      lj_method_register lj_raw_monitor_register lj_stack_frame_register lj_watch_register
      check_jvmti_error lj_init_jvmti_event
  lj_init_lem acc w = rw (acc.modes enable breakpoint none w.jvm) refl

  -- When JVMTI accepts the call, lj_init returns with the stack as it was. A name then resolves to
  -- the C function of that name if it is among the 51 that the agent registers, and otherwise as
  -- before; breakpoints are enabled for all threads. If Agent_OnLoad has filled the table of
  -- callbacks, no callback is set, so the state is one from which setting and clearing callbacks
  -- start.
  pub lj_init-registers :
      (acc : Accepts host) (w : World J)
      → w.jvmti_callbacks ≡ loaded_callbacks
      → (v : World J) × (lj_init w ≡ ok tt v)
        × (v.frame ≡ w.frame)
        × (v.jvm ≡ (host.jvmti.set_event_notification_mode enable breakpoint none w.jvm).1)
        × ((s : String)
            → get (Key.name s) v.globals ≡ (
                if is_among s exposed_names
                then some (Value.c_function s)
                else get (Key.name s) w.globals))
        × IsReachable v
  unfolding lj_init_jvmti_event
  lj_init-registers acc w loaded = (
    after_init w,
    lj_init_lem acc w,
    refl,
    refl,
    λ s. get-register_all s exposed_names w.globals,
    initially (record (after_init w) { callback_refs = w.callback_refs }) (after_init w) loaded
        returned,
  )
