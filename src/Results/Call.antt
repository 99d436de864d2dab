-- ===== src/Results/Call.antt =====
-- `lj_call_method` of lua_java.c.
use yellow_tree.Common.{◌^◌, ◌||◌, Bool, Option, none, some, List, String, str_eq}
use yellow_tree.Common.Int.{narrow}
use yellow_tree.Runtime.Value.{Ptr, JValue}
use yellow_tree.Runtime.Jni.{JType}
use yellow_tree.Runtime.Host.{Host}
use yellow_tree.Runtime.Stack.{check_string, check_object, check_integer, check_method}
use yellow_tree.Runtime.Answers.{
  returns, Ends-skip, Ends-chain, Ends-choice, Ends-one, Ends-none, Answers, Enough,
}
use yellow_tree.JniUtil.{exception_check}
use yellow_tree.LuaJava.{check_jvmti_error}
use yellow_tree.LuaJava.Types.{first}
use yellow_tree.LuaJava.Call.{
  count_of, arguments_loop, return_type, call_or_create, call_letter, call_return, lj_call_method,
}
use yellow_tree.Results.Calls.{
  new_jobject-Pushes, new_string-Pushes, free_jvmti_refs-Spares, lua_interface_error-Ends,
  push_jvalue-Pushes,
}

module _ {J : Type 0} ⦃host : Host J⦄ where
  call_letter-Answers :
      (o : Option JType) (ret : String) (s : Bool) (object m : Ptr) (args : List JValue)
      → Answers {J = J} (call_letter o ret s object m args)
  call_letter-Answers none ret s o m args w = lua_interface_error-Ends _ w
  call_letter-Answers (some type) ret s o m args w =
      Ends-skip (exception_check _ _ _) λ _ w. Ends-one (push_jvalue-Pushes type _ w)

  call_return-Answers :
      (ret name : String) (s : Bool) (object m : Ptr) (args : List JValue)
      → Answers {J = J} (call_return ret name s object m args)
  unfolding call_return
  call_return-Answers ret name s o m args =
      Ends-choice (str_eq ret "V") (λ w. Ends-none (exception_check _ _ _))
        (Ends-choice (str_eq (first ret) "L" || str_eq (first ret) "[" || str_eq ret "STR")
          (λ w. Ends-skip (call_or_create name s o m args w) λ val w.
            Ends-skip (exception_check _ _ w) λ _ w. Ends-one (
              Ends-choice (str_eq ret "L" || str_eq (first ret) "[") (new_jobject-Pushes val)
                (new_string-Pushes val) w))
          (call_letter-Answers (return_type ret) ret s o m args))

  pub lj_call_method-Answers : Answers {J = J} lj_call_method
  unfolding lj_call_method
  lj_call_method-Answers w = Ends-skip (check_object 1 w) λ o w. Ends-skip (check_method 2 w) λ m w.
      Ends-skip (check_string 4 w) λ ret w. Ends-skip (check_integer 5 w) λ n w.
        Ends-skip (check_jvmti_error _ _ _ _) λ _ w.
          Ends-skip (arguments_loop 0 6 (count_of (narrow (2 ^ 32) n)) w) λ args w.
            Ends-chain (call_return-Answers ret _ _ o m args _) λ count v q.
              Ends-chain (free_jvmti_refs-Spares (Enough count) _ v q) λ _ u r. returns r
