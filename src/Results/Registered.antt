-- ===== src/Results/Registered.antt =====
-- Every function that lj_init registers leaves on its stack the results that it announces.
use yellow_tree.Common.{
  ℕ, ◌≤◌, true, ◌||◌, some, List, [], ◌∷◌, String, str_eq, ◌≡◌, refl, subst, length, Bool-cases,
  inl, inr, arith,
}
use yellow_tree.Runtime.Value.{Value}
use yellow_tree.Runtime.Host.{Host}
use yellow_tree.Runtime.World.{World, ok, Cmd, enter}
use yellow_tree.Runtime.Globals.{is_among}
use yellow_tree.Runtime.Answers.{Ends-ok, Enough, Enough-le, Enough-one, Answers}
use yellow_tree.LuaJava.Init.{exposed_names}
use yellow_tree.Results.Commands.{find, commands, command_of}
use yellow_tree.Results.Classes.{
  lj_find_class-Answers, lj_get_class_fields-Answers, lj_get_class_methods-Answers,
  lj_get_source_filename-Answers, lj_get_loaded_classes-Answers, lj_get_class_instances-Answers,
}
use yellow_tree.Results.Members.{
  lj_get_field_id-Answers, lj_get_field_name-Answers, lj_get_field_declaring_class-Answers,
  lj_get_field_modifiers-Answers, lj_get_field_modifiers_table-Answers, lj_get_method_id-Answers,
  lj_get_local_variable_table-Answers, lj_get_line_number_table-Answers, lj_get_method_name-Answers,
  lj_get_method_declaring_class-Answers, lj_get_method_modifiers-Answers,
  lj_get_method_modifiers_table-Answers,
}
use yellow_tree.Results.Threads.{
  lj_force_early_return_object-Answers, lj_force_early_return_int-Answers,
  lj_force_early_return_long-Answers, lj_force_early_return_float-Answers,
  lj_force_early_return_double-Answers, lj_force_early_return_void-Answers,
  lj_create_raw_monitor-Answers, lj_destroy_raw_monitor-Answers, lj_raw_monitor_enter-Answers,
  lj_raw_monitor_exit-Answers, lj_raw_monitor_wait-Answers, lj_raw_monitor_notify-Answers,
  lj_raw_monitor_notify_all-Answers, lj_get_frame_count-Answers, lj_get_stack_frame-Answers,
  lj_set_field_access_watch-Answers, lj_set_field_modification_watch-Answers,
  lj_set_jvmti_callback-Answers, lj_clear_jvmti_callback-Answers,
}
use yellow_tree.Results.Values.{
  lj_set_breakpoint-Answers, lj_clear_breakpoint-Answers, lj_get_local_variable-Answers,
  lj_pointer_to_string-Answers, lj_to_string-Answers, lj_get_field-Answers,
  lj_get_current_thread-Answers, lj_get_all_threads-Answers, lj_get_array_length-Answers,
  lj_get_array_element-Answers, lj_set_array_element-Answers, lj_new_global_ref-Answers,
  lj_delete_global_ref-Answers,
}
use yellow_tree.Results.Call.{lj_call_method-Answers}

module _ {J : Type 0} where
  infixr 5 ◌▸◌
  data AllAnswer : List (String × Cmd J ℕ) → Type 0 where
    done : AllAnswer []
    ◌▸◌ :
        {n : String} {m : Cmd J ℕ} {rest : List (String × Cmd J ℕ)}
        → Answers m
        → AllAnswer rest
        → AllAnswer ((n, m) ∷ rest)

  abbrev names : List (String × Cmd J ℕ) → List String
  names [] = []
  names ((n, m) ∷ rest) = n ∷ names rest

  find-Answers :
      (s : String) (fs : List (String × Cmd J ℕ))
      → AllAnswer fs
      → is_among s (names fs) ≡ true
      → (m : Cmd J ℕ) × (find s fs ≡ some m) × Answers m
  find-Answers s [] a h = absurd (ground arith)
  find-Answers s ((n, m) ∷ rest) (a ▸ all) h = elim (Bool-cases (str_eq s n)) [
    | inl e ↦ (m, rw e refl, a)
    | inr e ↦
        let (k, f, b) =
          find-Answers s rest all (subst (λ c. (c || is_among s (names rest)) ≡ true) e h) in
        (k, rw e f, b)
  ]

module _ {J : Type 0} ⦃host : Host J⦄ where
  commands-Answers : AllAnswer {J = J} commands
  commands-Answers =
      lj_find_class-Answers ▸ lj_get_class_fields-Answers ▸ lj_get_class_methods-Answers
      ▸ lj_get_source_filename-Answers ▸ lj_get_loaded_classes-Answers
      ▸ lj_get_class_instances-Answers ▸ lj_get_field_id-Answers ▸ lj_get_field_name-Answers
      ▸ lj_get_field_declaring_class-Answers ▸ lj_get_field_modifiers-Answers
      ▸ lj_get_field_modifiers_table-Answers ▸ lj_force_early_return_object-Answers
      ▸ lj_force_early_return_int-Answers ▸ lj_force_early_return_long-Answers
      ▸ lj_force_early_return_float-Answers ▸ lj_force_early_return_double-Answers
      ▸ lj_force_early_return_void-Answers ▸ lj_get_method_id-Answers
      ▸ lj_get_local_variable_table-Answers ▸ lj_get_line_number_table-Answers
      ▸ lj_get_method_name-Answers ▸ lj_get_method_declaring_class-Answers
      ▸ lj_get_method_modifiers-Answers ▸ lj_get_method_modifiers_table-Answers
      ▸ lj_create_raw_monitor-Answers ▸ lj_destroy_raw_monitor-Answers
      ▸ lj_raw_monitor_enter-Answers ▸ lj_raw_monitor_exit-Answers ▸ lj_raw_monitor_wait-Answers
      ▸ lj_raw_monitor_notify-Answers ▸ lj_raw_monitor_notify_all-Answers
      ▸ lj_get_frame_count-Answers ▸ lj_get_stack_frame-Answers ▸ lj_set_field_access_watch-Answers
      ▸ lj_set_field_modification_watch-Answers ▸ lj_set_breakpoint-Answers
      ▸ lj_clear_breakpoint-Answers ▸ lj_get_local_variable-Answers ▸ lj_pointer_to_string-Answers
      ▸ lj_call_method-Answers ▸ lj_to_string-Answers ▸ lj_get_field-Answers
      ▸ lj_get_current_thread-Answers ▸ lj_get_all_threads-Answers ▸ lj_get_array_length-Answers
      ▸ lj_get_array_element-Answers ▸ lj_set_array_element-Answers ▸ lj_new_global_ref-Answers
      ▸ lj_delete_global_ref-Answers ▸ lj_set_jvmti_callback-Answers
      ▸ lj_clear_jvmti_callback-Answers ▸ done

  -- Each of the 51 names that lj_init registers stands for a C function of the agent, and when
  -- that function returns on any arguments and in any state, it announces no result or one, and
  -- has at least as many values on its stack as it announces.
  pub registered-results :
      (s : String)
      → is_among s exposed_names ≡ true
      → (m : Cmd J ℕ) × (command_of s ≡ some m)
        × ((args : List Value) (w v : World J) (n : ℕ)
            → m (enter args w) ≡ ok n v
            → (n ≤ 1) × (n ≤ length v.frame))
  registered-results s h =
      let (m, f, a) = find-Answers s commands commands-Answers h in
      (
        m,
        f,
        λ args w v n e.
            let q : Enough n v.frame = Ends-ok (a (enter args w)) e in (Enough-one q, Enough-le q),
      )
