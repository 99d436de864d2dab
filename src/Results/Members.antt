-- ===== src/Results/Members.antt =====
-- The functions of lj_field.c and lj_method.c.
use yellow_tree.Common.{zero, suc, ℕ, ◌+◌, Option, none, some, List, [], ◌∷◌, String}
use yellow_tree.Runtime.Value.{
  Ptr, Value, Buffer, Key, Fields, put, LocalVariableEntry, LineNumberEntry,
}
use yellow_tree.Runtime.Host.{Host}
use yellow_tree.Runtime.Stack.{check_string, check_object, check_field, check_method, check_integer}
use yellow_tree.Runtime.Answers.{
  returns, faults, Ends-skip, Ends-chain, Ends-branch, Ends-one, Answers, Pushes, Holds, filled,
  one,
}
use yellow_tree.JniUtil.{exception_clear}
use yellow_tree.LuaJava.{check_jvmti_error}
use yellow_tree.Bridge.{new_jfield_id, new_jmethod_id}
use yellow_tree.Lj.Field.{
  push_field, static_field_if_none, field_of_class, lj_get_field_id, lj_get_field_name,
  lj_get_field_declaring_class, lj_get_field_modifiers,
}
use yellow_tree.Lj.Method.{
  push_method, static_method_if_none, has_no_table, variables_loop, free_if_any, push_variables,
  lines_loop, line_count, entries_of, push_lines, lj_get_method_id, lj_get_local_variable_table,
  lj_get_line_number_table, lj_get_method_name, lj_get_method_declaring_class,
  lj_get_method_modifiers,
}
use yellow_tree.Lj.Modifiers.{lj_get_field_modifiers_table, lj_get_method_modifiers_table}
use yellow_tree.Results.Calls.{
  set_in-Ends, new_jobject-Pushes, free_jvmti_refs-Holds, check_jvmti_error-Holds,
}

-- one variable's table, and one line's
abbrev row : LocalVariableEntry → Value
row v = Value.table (
    put (Key.name "slot") (Value.integer v.slot) (
      put (Key.name "start_location") (Value.integer v.start_location) (
        put (Key.name "sig") (Value.string v.signature.contents)
          (put (Key.name "name") (Value.string v.name.contents) Fields.empty))))

abbrev line_row : LineNumberEntry → Value
line_row l = Value.table (
    put (Key.name "line_num") (Value.integer l.line_number)
      (put (Key.name "location") (Value.integer l.start_location) Fields.empty))

module _ {J : Type 0} ⦃host : Host J⦄ where
  push_field-Answers : (o : Option Ptr) (klass : Ptr) → Answers {J = J} (push_field o klass)
  unfolding new_jfield_id
  push_field-Answers none klass w = returns (one filled)
  push_field-Answers (some f) klass w = returns (one filled)

  field_of_class-Answers :
      (o : Option Ptr) (field_name sig : String) → Answers {J = J} (field_of_class o field_name sig)
  field_of_class-Answers none n s w = returns (one filled)
  field_of_class-Answers (some k) n s w = Ends-skip (exception_clear _) λ _ w.
      Ends-skip (static_field_if_none _ k n s w)
        λ id w. Ends-skip (exception_clear w) λ _ w. push_field-Answers id k w

  pub lj_get_field_id-Answers : Answers {J = J} lj_get_field_id
  unfolding lj_get_field_id
  lj_get_field_id-Answers w = Ends-skip (check_string 1 w) λ a w.
      Ends-skip (check_string 2 w) λ b w.
        Ends-skip (check_string 3 w)
          λ c w. Ends-skip (exception_clear _) λ _ w. field_of_class-Answers _ _ _ _

  pub lj_get_field_name-Answers : Answers {J = J} lj_get_field_name
  unfolding lj_get_field_name
  lj_get_field_name-Answers w = Ends-skip (check_field 1 w) λ a w.
      Ends-skip (check_jvmti_error _ _ _ _) λ _ w. Ends-one (free_jvmti_refs-Holds _ _ filled)

  pub lj_get_field_declaring_class-Answers : Answers {J = J} lj_get_field_declaring_class
  unfolding lj_get_field_declaring_class
  lj_get_field_declaring_class-Answers w =
      Ends-skip (check_field 1 w)
        λ a w. Ends-skip (check_jvmti_error _ _ _ _) λ _ w. Ends-one (new_jobject-Pushes _ _)

  pub lj_get_field_modifiers-Answers : Answers {J = J} lj_get_field_modifiers
  unfolding lj_get_field_modifiers
  lj_get_field_modifiers-Answers w =
      Ends-skip (check_field 1 w)
        λ a w. Ends-skip (check_jvmti_error _ _ _ _) λ _ w. returns (one filled)

  pub lj_get_field_modifiers_table-Answers : Answers {J = J} lj_get_field_modifiers_table
  unfolding lj_get_field_modifiers_table
  lj_get_field_modifiers_table-Answers w = Ends-skip (check_integer 1 w) λ a w. returns (one filled)

  pub lj_get_method_modifiers_table-Answers : Answers {J = J} lj_get_method_modifiers_table
  unfolding lj_get_method_modifiers_table
  lj_get_method_modifiers_table-Answers w =
      Ends-skip (check_integer 1 w) λ a w. returns (one filled)

  push_method-Answers : (o : Option Ptr) → Answers {J = J} (push_method o)
  unfolding new_jmethod_id
  push_method-Answers none w = returns (one filled)
  push_method-Answers (some m) w = returns (one filled)

  pub lj_get_method_id-Answers : Answers {J = J} lj_get_method_id
  unfolding lj_get_method_id
  lj_get_method_id-Answers w = Ends-skip (check_object 1 w) λ k w.
      Ends-skip (check_string 2 w) λ a w. Ends-skip (check_string 3 w) λ b w.
        Ends-skip (check_string 4 w) λ c w. Ends-skip (exception_clear _) λ _ w.
          Ends-skip (static_method_if_none _ k a _ w)
            λ id w. Ends-skip (exception_clear w) λ _ w. push_method-Answers id w

  variables_loop-Holds : (vars : List LocalVariableEntry) → Holds {J = J} (variables_loop vars)
  unfolding variables_loop
  variables_loop-Holds [] w h = returns h
  variables_loop-Holds (v ∷ vars) w h =
      Ends-chain
        (set_in-Ends (Key.name v.name.contents) (row v ∷ w.frame)
          (record w { frame = row v ∷ w.frame }))
        λ _ u q. variables_loop-Holds vars u q

  free_if_any-Holds :
      (vars : List LocalVariableEntry) (p : Option Ptr) → Holds {J = J} (free_if_any vars p)
  free_if_any-Holds [] p w h = returns h
  free_if_any-Holds (v ∷ vars) p w h = Ends-chain (free_jvmti_refs-Holds _ w h) λ _ v q. returns q

  push_variables-Answers :
      (vars : Buffer (List LocalVariableEntry)) → Answers {J = J} (push_variables vars)
  push_variables-Answers vars w = Ends-branch (has_no_table w.lj_err) (returns (one filled)) (
      Ends-skip (check_jvmti_error _ _ _ w) λ _ w.
        Ends-chain (variables_loop-Holds vars.contents _ filled)
          λ _ v q. Ends-one (free_if_any-Holds vars.contents vars.at v q))

  pub lj_get_local_variable_table-Answers : Answers {J = J} lj_get_local_variable_table
  unfolding lj_get_local_variable_table
  lj_get_local_variable_table-Answers w =
      Ends-skip (check_method 1 w)
        λ m w. push_variables-Answers (host.jvmti.get_local_variable_table m w.jvm).1 _

  lines_loop-Holds : (i n : ℕ) (lines : List LineNumberEntry) → Holds {J = J} (lines_loop i n lines)
  unfolding lines_loop
  lines_loop-Holds i zero lines w h = returns h
  lines_loop-Holds i (suc n) [] w h = faults
  lines_loop-Holds i (suc n) (l ∷ lines) w h =
      Ends-chain
        (set_in-Ends (Key.index (i + 1)) (line_row l ∷ w.frame)
          (record w { frame = line_row l ∷ w.frame }))
        λ _ u q. lines_loop-Holds (i + 1) n lines u q

  push_lines-Pushes :
      (lines : Option (Buffer (List LineNumberEntry))) → Pushes {J = J} (push_lines lines)
  push_lines-Pushes lines w = Ends-branch (has_no_table w.lj_err) (returns filled) (
      Ends-chain
        (lines_loop-Holds 0 (line_count host.lua.indeterminate lines) (entries_of lines)
          (record w { frame = Value.table Fields.empty ∷ w.frame }) filled)
        λ _ v q.
          Ends-chain (check_jvmti_error-Holds _ _ _ v q)
            λ _ v q. Ends-chain (free_jvmti_refs-Holds _ v q) λ _ v q. returns q)

  pub lj_get_line_number_table-Answers : Answers {J = J} lj_get_line_number_table
  unfolding lj_get_line_number_table
  lj_get_line_number_table-Answers w =
      Ends-skip (check_method 1 w)
        λ m w. Ends-one (push_lines-Pushes (host.jvmti.get_line_number_table m w.jvm).1 _)

  pub lj_get_method_name-Answers : Answers {J = J} lj_get_method_name
  unfolding lj_get_method_name
  lj_get_method_name-Answers w = Ends-skip (check_method 1 w) λ a w.
      Ends-skip (check_jvmti_error _ _ _ _) λ _ w. Ends-one (free_jvmti_refs-Holds _ _ filled)

  pub lj_get_method_declaring_class-Answers : Answers {J = J} lj_get_method_declaring_class
  unfolding lj_get_method_declaring_class
  lj_get_method_declaring_class-Answers w =
      Ends-skip (check_method 1 w)
        λ a w. Ends-skip (check_jvmti_error _ _ _ _) λ _ w. Ends-one (new_jobject-Pushes _ _)

  pub lj_get_method_modifiers-Answers : Answers {J = J} lj_get_method_modifiers
  unfolding lj_get_method_modifiers
  lj_get_method_modifiers-Answers w =
      Ends-skip (check_method 1 w)
        λ a w. Ends-skip (check_jvmti_error _ _ _ _) λ _ w. returns (one filled)
