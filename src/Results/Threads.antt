-- ===== src/Results/Threads.antt =====
-- The functions of lj_stack_frame.c, lj_force_early_return.c, lj_watch.c and lj_raw_monitor.c, and
-- the two of lua_jvmti_event.c.
use Prim.Native.String.{◌++◌}
use yellow_tree.Common.{List, [], ◌∷◌, ◌^◌, drop, if◌then◌else◌}
use yellow_tree.Common.Int.{ℤ, pos, narrow, ◌-ℤ◌}
use yellow_tree.Runtime.Value.{FrameInfo, is_zero_ref, error_none}
use yellow_tree.Runtime.Host.{Host}
use yellow_tree.Runtime.World.{assert, pure}
use yellow_tree.Runtime.Stack.{
  arg, check_string, check_object, check_field, check_integer, check_monitor, check_function,
  lua_ref, lua_error_message,
}
use yellow_tree.Runtime.Answers.{
  returns, aborts, Ends-skip, Ends-branch, Ends-none, Answers, filled, one, none,
}
use yellow_tree.LuaJava.{check_jvmti_error}
use yellow_tree.Bridge.{new_jmonitor, new_jmethod_id}
use yellow_tree.Lj.StackFrame.{
  lj_get_frame_count, frame_table, lj_get_stack_frame, is_illegal_argument, is_nil,
}
use yellow_tree.Lj.EarlyReturn.{
  object_or_null, boolean_or_int, lj_force_early_return_object, lj_force_early_return_int,
  lj_force_early_return_long, lj_force_early_return_float, lj_force_early_return_double,
  lj_force_early_return_void,
}
use yellow_tree.Lj.Watch.{lj_set_field_access_watch, lj_set_field_modification_watch}
use yellow_tree.Lj.RawMonitor.{
  lj_create_raw_monitor, lj_destroy_raw_monitor, lj_raw_monitor_enter, lj_raw_monitor_exit,
  lj_raw_monitor_wait, lj_raw_monitor_notify, lj_raw_monitor_notify_all,
}
use yellow_tree.Event.Registry.{
  enable_event, disable_event, switched_event, store_callback, remove_callback,
  lj_set_jvmti_callback, lj_clear_jvmti_callback,
}

module _ {J : Type 0} ⦃host : Host J⦄ where
  pub lj_get_frame_count-Answers : Answers {J = J} lj_get_frame_count
  unfolding lj_get_frame_count
  lj_get_frame_count-Answers w =
      Ends-skip (check_object 1 w)
        λ a w. Ends-skip (check_jvmti_error _ _ _ _) λ _ w. returns (one filled)

  frame_table-Answers : (n : ℤ) (frames : List FrameInfo) → Answers {J = J} (frame_table n frames)
  unfolding new_jmethod_id
  frame_table-Answers n [] w = returns (one filled)
  frame_table-Answers n (f ∷ more) w =
      Ends-branch (is_illegal_argument w.lj_err) (returns (one filled)) (
        Ends-skip (check_jvmti_error _ _ _ w)
          λ _ w. Ends-skip (assert (is_nil more) w) λ _ w. returns (one filled))

  pub lj_get_stack_frame-Answers : Answers {J = J} lj_get_stack_frame
  unfolding lj_get_stack_frame
  lj_get_stack_frame-Answers w = Ends-skip (check_object 1 w) λ t w.
      Ends-skip (check_integer 2 w) λ n w.
        frame_table-Answers (narrow (2 ^ 32) n)
          (host.jvmti.get_stack_trace t (narrow (2 ^ 32) (narrow (2 ^ 32) n -ℤ pos 1)) (pos 1)
            w.jvm).1
          _

  pub lj_force_early_return_object-Answers : Answers {J = J} lj_force_early_return_object
  unfolding lj_force_early_return_object
  lj_force_early_return_object-Answers w = Ends-skip (check_object 1 w) λ t w.
      Ends-skip (object_or_null (arg 2 w.frame) w)
        λ v w. Ends-skip (check_jvmti_error _ _ _ _) λ _ w. returns none

  pub lj_force_early_return_int-Answers : Answers {J = J} lj_force_early_return_int
  unfolding lj_force_early_return_int
  lj_force_early_return_int-Answers w = Ends-skip (check_object 1 w) λ t w.
      Ends-skip (boolean_or_int (arg 2 w.frame) w)
        λ v w. Ends-skip (check_jvmti_error _ _ _ _) λ _ w. returns none

  pub lj_force_early_return_long-Answers : Answers {J = J} lj_force_early_return_long
  unfolding lj_force_early_return_long
  lj_force_early_return_long-Answers w = aborts

  pub lj_force_early_return_float-Answers : Answers {J = J} lj_force_early_return_float
  unfolding lj_force_early_return_float
  lj_force_early_return_float-Answers w = aborts

  pub lj_force_early_return_double-Answers : Answers {J = J} lj_force_early_return_double
  unfolding lj_force_early_return_double
  lj_force_early_return_double-Answers w = aborts

  pub lj_force_early_return_void-Answers : Answers {J = J} lj_force_early_return_void
  unfolding lj_force_early_return_void
  lj_force_early_return_void-Answers w =
      Ends-skip (check_object 1 w) λ t w. Ends-none (check_jvmti_error _ _ _ _)

  pub lj_set_field_access_watch-Answers : Answers {J = J} lj_set_field_access_watch
  unfolding lj_set_field_access_watch
  lj_set_field_access_watch-Answers w =
      Ends-skip (check_field 1 w) λ f w. Ends-none (check_jvmti_error _ _ _ _)

  pub lj_set_field_modification_watch-Answers : Answers {J = J} lj_set_field_modification_watch
  unfolding lj_set_field_modification_watch
  lj_set_field_modification_watch-Answers w =
      Ends-skip (check_field 1 w) λ f w. Ends-none (check_jvmti_error _ _ _ _)

  pub lj_create_raw_monitor-Answers : Answers {J = J} lj_create_raw_monitor
  unfolding lj_create_raw_monitor new_jmonitor
  lj_create_raw_monitor-Answers w =
      Ends-skip (check_string 1 w)
        λ f w. Ends-skip (check_jvmti_error _ _ _ _) λ _ w. returns (one filled)

  pub lj_destroy_raw_monitor-Answers : Answers {J = J} lj_destroy_raw_monitor
  unfolding lj_destroy_raw_monitor
  lj_destroy_raw_monitor-Answers w =
      Ends-skip (check_monitor 1 w) λ m w. Ends-none (check_jvmti_error _ _ _ _)

  pub lj_raw_monitor_enter-Answers : Answers {J = J} lj_raw_monitor_enter
  unfolding lj_raw_monitor_enter
  lj_raw_monitor_enter-Answers w =
      Ends-skip (check_monitor 1 w) λ m w. Ends-none (check_jvmti_error _ _ _ _)

  pub lj_raw_monitor_exit-Answers : Answers {J = J} lj_raw_monitor_exit
  unfolding lj_raw_monitor_exit
  lj_raw_monitor_exit-Answers w =
      Ends-skip (check_monitor 1 w) λ m w. Ends-none (check_jvmti_error _ _ _ _)

  pub lj_raw_monitor_wait-Answers : Answers {J = J} lj_raw_monitor_wait
  unfolding lj_raw_monitor_wait
  lj_raw_monitor_wait-Answers w =
      Ends-skip (check_monitor 1 w)
        λ m w. Ends-skip (check_integer 2 w) λ t w. Ends-none (check_jvmti_error _ _ _ _)

  pub lj_raw_monitor_notify-Answers : Answers {J = J} lj_raw_monitor_notify
  unfolding lj_raw_monitor_notify
  lj_raw_monitor_notify-Answers w =
      Ends-skip (check_monitor 1 w) λ m w. Ends-none (check_jvmti_error _ _ _ _)

  pub lj_raw_monitor_notify_all-Answers : Answers {J = J} lj_raw_monitor_notify_all
  unfolding lj_raw_monitor_notify_all
  lj_raw_monitor_notify_all-Answers w =
      Ends-skip (check_monitor 1 w) λ m w. Ends-none (check_jvmti_error _ _ _ _)

  pub lj_set_jvmti_callback-Answers : Answers {J = J} lj_set_jvmti_callback
  unfolding lj_set_jvmti_callback
  lj_set_jvmti_callback-Answers w = Ends-skip (check_string 1 w) λ s w.
      Ends-skip (check_function 2 w) λ f w. Ends-skip (lua_ref w) λ r w.
        Ends-skip
          ((if is_zero_ref r
              then lua_error_message ("Unknown callback '" ++ s ++ "'\n")
              else pure tt)
            (record w { frame = drop 1 w.frame }))
          λ _ w.
            Ends-skip (enable_event (switched_event s) (record w { lj_err = error_none }))
              λ _ w. Ends-skip (check_jvmti_error _ _ _ w) λ _ w. Ends-none (store_callback s r w)

  pub lj_clear_jvmti_callback-Answers : Answers {J = J} lj_clear_jvmti_callback
  unfolding lj_clear_jvmti_callback
  lj_clear_jvmti_callback-Answers w = Ends-skip (check_string 1 w) λ s w.
      Ends-skip
        (disable_event (switched_event s)
          (record w { frame = drop 1 w.frame; lj_err = error_none }))
        λ _ w. Ends-skip (check_jvmti_error _ _ _ w) λ _ w. Ends-none (remove_callback s w)
