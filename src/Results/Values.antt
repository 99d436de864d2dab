-- ===== src/Results/Values.antt =====
-- The functions of lua_java.c.
use yellow_tree.Common.{
  drop, ℕ, ◌+◌, ◌||◌, Bool, Option, none, some, List, [], ◌∷◌, String, str_eq, ◌^◌,
}
use yellow_tree.Common.Int.{ℤ, narrow}
use yellow_tree.Runtime.Value.{Value, Ptr, Key, to_boolean, JvmtiError}
use yellow_tree.Runtime.Jni.{JType}
use yellow_tree.Runtime.Host.{Host}
use yellow_tree.Runtime.World.{Cmd, assert, ◌>>=◌}
use yellow_tree.Runtime.Stack.{
  push, check_string, check_object, check_field, check_integer, check_method, check_boolean,
}
use yellow_tree.Runtime.Answers
use yellow_tree.Runtime.Answers.{
  Ends, returns, Ends-skip, Ends-chain, Ends-branch, Ends-choice, Ends-one, Ends-none, Answers,
  Pushes, Holds, filled, one, Enough,
}
use yellow_tree.Runtime.Calls.{jvmti_get}
use yellow_tree.JniUtil.{exception_check}
use yellow_tree.LuaInterface.{top}
use yellow_tree.LuaJava.{check_jvmti_error, get_current_java_thread}
use yellow_tree.Bridge.{new_jobject}
use yellow_tree.LuaJava.Types.{first, sig_type}
use yellow_tree.LuaJava.Breakpoint.{lj_set_breakpoint, lj_clear_breakpoint}
use yellow_tree.LuaJava.Local.{
  local_variable_is_nil, is_int_type, int_value, nil_or, lj_get_local_variable, int_pred,
}
use yellow_tree.LuaJava.GetField.{push_field_value, lj_get_field}
use yellow_tree.LuaJava.Thread.{
  lj_get_current_thread, threads_loop, lj_get_all_threads, lj_new_global_ref, lj_delete_global_ref,
  push_text, call_to_string, to_string_of_class, lj_to_string, first_word, lj_pointer_to_string,
}
use yellow_tree.LuaJava.Array.{
  element_type, jni_index, lj_get_array_length, push_element, lj_get_array_element, store_element,
  lj_set_array_element,
}
use yellow_tree.Results.Calls.{
  set_in-Ends, new_jobject-Pushes, new_string-Pushes, free_jvmti_refs-Holds,
  lua_interface_error-Ends, push_jvalue-Pushes,
}

module _ {J : Type 0} ⦃host : Host J⦄ where
  pub lj_set_breakpoint-Answers : Answers {J = J} lj_set_breakpoint
  unfolding lj_set_breakpoint
  lj_set_breakpoint-Answers w =
      Ends-skip (check_method 1 w)
        λ m w. Ends-skip (check_integer 2 w) λ n w. Ends-none (check_jvmti_error _ _ _ _)

  pub lj_clear_breakpoint-Answers : Answers {J = J} lj_clear_breakpoint
  unfolding lj_clear_breakpoint
  lj_clear_breakpoint-Answers w =
      Ends-skip (check_method 1 w)
        λ m w. Ends-skip (check_integer 2 w) λ n w. Ends-none (check_jvmti_error _ _ _ _)

  nil_or-Pushes :
      (line : ℕ) (m : Cmd J (Unit {0})) → Pushes {J = J} m → Pushes {J = J} (nil_or line m)
  unfolding nil_or
  nil_or-Pushes line m h w =
      Ends-branch (local_variable_is_nil w.lj_err) (returns filled)
        (Ends-skip (check_jvmti_error _ _ _ w) λ _ v. h v)

  read_local-Pushes :
      {A : Type 0} (line : ℕ) (f : J → JvmtiError × A × J) (k : A → Cmd J (Unit {0}))
      → ((a : A) → Pushes {J = J} (k a))
      → Pushes {J = J} (jvmti_get f >>= λ v. nil_or line (k v))
  read_local-Pushes line f k h w =
      nil_or-Pushes line (k (f w.jvm).1) (h (f w.jvm).1)
        (record w { jvm = (f w.jvm).2; lj_err = (f w.jvm).0 })

  pub lj_get_local_variable-Answers : Answers {J = J} lj_get_local_variable
  unfolding lj_get_local_variable
  lj_get_local_variable-Answers w = Ends-skip (check_integer 1 w) λ n w.
      Ends-skip (check_integer 2 w) λ m w. Ends-skip (check_string 3 w) λ type w. Ends-one (
        Ends-choice (is_int_type type)
          (λ w. Ends-skip (get_current_java_thread w) λ t w.
            read_local-Pushes 172
              (host.jvmti.get_local_int t (int_pred (narrow (2 ^ 32) n)) (narrow (2 ^ 32) m))
              (λ v. push (int_value type v)) (λ v w. returns filled) w)
          (Ends-choice (str_eq type "J")
            (λ w. Ends-skip (get_current_java_thread w) λ t w.
              read_local-Pushes 189
                (host.jvmti.get_local_long t (int_pred (narrow (2 ^ 32) n)) (narrow (2 ^ 32) m))
                (λ v. push (Value.integer v)) (λ v w. returns filled) w)
            (Ends-choice (str_eq type "F")
              (λ w. Ends-skip (get_current_java_thread w) λ t w.
                read_local-Pushes 203
                  (host.jvmti.get_local_float t (int_pred (narrow (2 ^ 32) n)) (narrow (2 ^ 32) m))
                  (λ v. push (Value.number (host.lua.widen v))) (λ v w. returns filled) w)
              (Ends-choice (str_eq type "D")
                (λ w. Ends-skip (get_current_java_thread w) λ t w.
                  read_local-Pushes 217
                    (host.jvmti.get_local_double t (int_pred (narrow (2 ^ 32) n))
                      (narrow (2 ^ 32) m))
                    (λ v. push (Value.number v)) (λ v w. returns filled) w)
                (Ends-choice (str_eq (first type) "L" || str_eq (first type) "[")
                  (λ w. Ends-skip (get_current_java_thread w) λ t w.
                    read_local-Pushes 235
                      (host.jvmti.get_local_object t (int_pred (narrow (2 ^ 32) n))
                        (narrow (2 ^ 32) m))
                      (λ v. new_jobject v) (λ v. new_jobject-Pushes v) w)
                  (λ w. returns filled)))))
          (record w { frame = drop 3 w.frame }))

  push_field_value-Pushes :
      (o : Option JType) (sig : String) (s : Bool) (object field_id : Ptr)
      → Pushes {J = J} (push_field_value o sig s object field_id)
  unfolding push_field_value
  push_field_value-Pushes none sig s o f w = returns filled
  push_field_value-Pushes (some type) sig s o f w =
      Ends-skip (exception_check _ _ _) λ _ w. push_jvalue-Pushes type _ w

  pub lj_get_field-Answers : Answers {J = J} lj_get_field
  unfolding lj_get_field
  lj_get_field-Answers w = Ends-skip (check_object 1 w) λ o w. Ends-skip (check_field 2 w) λ f w.
      Ends-skip (check_boolean 3 w) λ b w. Ends-skip (check_jvmti_error _ _ _ _) λ _ v.
        let sig = (host.jvmti.get_field_name f.1 f.0 w.jvm).1.1 in
        Ends-one (
          push_field_value-Pushes (sig_type sig.contents) sig.contents (to_boolean (top w.frame)) o
            f.0 v)

  pub lj_get_current_thread-Answers : Answers {J = J} lj_get_current_thread
  unfolding lj_get_current_thread
  lj_get_current_thread-Answers w =
      Ends-skip (get_current_java_thread w) λ t w. Ends-one (new_jobject-Pushes (some t) w)

  threads_loop-Holds : (i : ℕ) (threads : List Ptr) → Holds {J = J} (threads_loop i threads)
  unfolding threads_loop
  threads_loop-Holds i [] w h = returns h
  threads_loop-Holds i (t ∷ threads) w h = Ends-skip (new_jobject (some t) w) λ _ w.
      Ends-chain (set_in-Ends (Key.index (i + 1)) w.frame w)
        λ _ v q. threads_loop-Holds (i + 1) threads v q

  pub lj_get_all_threads-Answers : Answers {J = J} lj_get_all_threads
  unfolding lj_get_all_threads
  lj_get_all_threads-Answers w = Ends-skip (check_jvmti_error _ _ _ _) λ _ v.
      Ends-chain (threads_loop-Holds 0 (host.jvmti.get_all_threads w.jvm).1.contents _ filled)
        λ _ v q. Ends-one (free_jvmti_refs-Holds _ v q)

  pub lj_new_global_ref-Answers : Answers {J = J} lj_new_global_ref
  unfolding lj_new_global_ref
  lj_new_global_ref-Answers w =
      Ends-skip (check_object 1 w)
        λ o w. Ends-skip (exception_check _ _ _) λ _ w. Ends-one (new_jobject-Pushes _ _)

  pub lj_delete_global_ref-Answers : Answers {J = J} lj_delete_global_ref
  unfolding lj_delete_global_ref
  lj_delete_global_ref-Answers w =
      Ends-skip (check_object 1 w)
        λ o w. Ends-skip (exception_check _ _ _) λ _ w. returns Answers.none

  push_text-Answers : (o : Option Ptr) → Answers {J = J} (push_text o)
  push_text-Answers none w = returns (one filled)
  push_text-Answers (some t) w = Ends-one (new_string-Pushes (some t) w)

  call_to_string-Answers :
      (object : Ptr) (o : Option Ptr) → Answers {J = J} (call_to_string object o)
  call_to_string-Answers object none w = returns (one filled)
  call_to_string-Answers object (some m) w =
      Ends-skip (exception_check _ _ _) λ _ w. push_text-Answers _ w

  to_string_of_class-Answers :
      (object : Ptr) (o : Option Ptr) → Answers {J = J} (to_string_of_class object o)
  to_string_of_class-Answers object none w = returns (one filled)
  to_string_of_class-Answers object (some k) w =
      Ends-skip (exception_check _ _ _) λ _ w. call_to_string-Answers object _ w

  pub lj_to_string-Answers : Answers {J = J} lj_to_string
  unfolding lj_to_string
  lj_to_string-Answers w =
      Ends-skip (check_object 1 w)
        λ o w. Ends-skip (exception_check _ _ _) λ _ w. to_string_of_class-Answers o _ w

  pub lj_pointer_to_string-Answers : Answers {J = J} lj_pointer_to_string
  unfolding lj_pointer_to_string
  lj_pointer_to_string-Answers w =
      Ends-skip (first_word (top w.frame) w) λ p w. returns (one filled)

  pub lj_get_array_length-Answers : Answers {J = J} lj_get_array_length
  unfolding lj_get_array_length
  lj_get_array_length-Answers w =
      Ends-skip (check_object 1 w)
        λ o w. Ends-skip (exception_check _ _ _) λ _ w. returns (one filled)

  push_element-Pushes :
      (o : Option JType) (name : String) (array : Ptr) (i : ℤ)
      → Pushes {J = J} (push_element o name array i)
  push_element-Pushes none name array i w = lua_interface_error-Ends _ w
  push_element-Pushes (some type) name array i w =
      Ends-skip (exception_check _ _ _) λ _ w. push_jvalue-Pushes type _ w

  pub lj_get_array_element-Answers : Answers {J = J} lj_get_array_element
  unfolding lj_get_array_element
  lj_get_array_element-Answers w = Ends-skip (check_object 1 w) λ o w.
      Ends-skip (check_string 2 w) λ s w. Ends-skip (check_integer 3 w) λ n w.
        Ends-skip (assert (str_eq (first s) "[") _)
          λ _ w. Ends-one (push_element-Pushes (element_type s) s o (jni_index n) w)

  pub lj_set_array_element-Answers : Answers {J = J} lj_set_array_element
  unfolding lj_set_array_element
  lj_set_array_element-Answers w = Ends-skip (check_object 1 w) λ o w.
      Ends-skip (check_string 2 w) λ s w. Ends-skip (check_integer 3 w) λ n w.
        Ends-skip (assert (str_eq (first s) "[") w) λ _ w.
          Ends-skip (store_element (element_type s) o (jni_index n) w) λ _ w. returns Answers.none
