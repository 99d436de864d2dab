-- ===== src/Results/Calls.antt =====
-- The calls that the functions have in common: which of them leave a value on the stack, and which
-- leave one that is there.
use Prim.Native.String.{len}
use yellow_tree.Common.{leb, ℕ, Option, none, some, List, [], ◌∷◌, String}
use yellow_tree.Runtime.Value.{Ptr, Value, Key, JvmtiError, JValue, is_none_error}
use yellow_tree.Runtime.Host.{Host}
use yellow_tree.Runtime.Jni.{JType}
use yellow_tree.Runtime.World.{World}
use yellow_tree.Runtime.Stack.{set_in, raw_set_in}
use yellow_tree.Runtime.Answers.{
  Ends, returns, raises, faults, Ends-skip, Ends-branch, Pushes, Holds, Filled, filled,
}
use yellow_tree.JniUtil.{free_refs, free_jvmti_refs, exception_check}
use yellow_tree.LuaInterface.{traceback, lua_interface_error}
use yellow_tree.LuaJava.{check_jvmti_error}
use yellow_tree.LuaJava.Types.{push_jvalue}
use yellow_tree.Bridge.{new_jobject, new_string, push_chars}

module _ {J : Type 0} where
  pub set_in-Ends :
      (k : Key) (xs : List Value) (w : World J) → Ends (λ _ v. Filled v.frame) (set_in k xs w)
  set_in-Ends k (v ∷ Value.table t ∷ rest) w = returns filled
  set_in-Ends k _ w = faults

  pub raw_set_in-Ends :
      (xs : List Value) (w : World J) → Ends (λ _ v. Filled v.frame) (raw_set_in xs w)
  raw_set_in-Ends (v ∷ Value.string k ∷ Value.table t ∷ rest) w = returns filled
  raw_set_in-Ends _ w = faults

  pub new_jobject-Pushes : (o : Option Ptr) → Pushes {J = J} (new_jobject o)
  unfolding new_jobject
  new_jobject-Pushes none w = returns filled
  new_jobject-Pushes (some p) w = returns filled

module _ {J : Type 0} ⦃host : Host J⦄ where
  free_refs-Spares :
      (P : List Value → Type 0) (refs : List (Option Ptr)) (e : JvmtiError) (w : World J)
      → P w.frame
      → Ends (λ _ v. P v.frame) (free_refs e refs w)
  unfolding free_refs
  free_refs-Spares P [] e w h = returns h
  free_refs-Spares P (none ∷ refs) e w h = free_refs-Spares P refs e _ h
  free_refs-Spares P (some p ∷ refs) e w h = free_refs-Spares P refs _ _ h

  -- The stack is left alone.
  pub free_jvmti_refs-Spares :
      (P : List Value → Type 0) (refs : List (Option Ptr)) (w : World J)
      → P w.frame
      → Ends (λ _ v. P v.frame) (free_jvmti_refs refs w)
  unfolding free_jvmti_refs
  free_jvmti_refs-Spares P refs = free_refs-Spares P refs _

  pub free_jvmti_refs-Holds : (refs : List (Option Ptr)) → Holds {J = J} (free_jvmti_refs refs)
  free_jvmti_refs-Holds = free_jvmti_refs-Spares Filled

  pub exception_check-Holds : (file : String) (line : ℕ) → Holds {J = J} (exception_check file line)
  unfolding exception_check
  exception_check-Holds file line w h =
      Ends-branch (host.jni.exception_check w.jvm) (returns h) (returns h)

  -- An error is raised, so nothing is to be shown of a result.
  pub lua_interface_error-Ends :
      {A : Type 0} {Q : A → World J → Type 0} (msg : String) (w : World J)
      → Ends Q (lua_interface_error msg w)
  unfolding lua_interface_error
  lua_interface_error-Ends msg w =
      Ends-branch (leb 500 (len msg)) faults
        (Ends-skip (traceback (record w { frame = Value.string msg ∷ w.frame })) λ a v. raises)

  pub check_jvmti_error-Holds :
      (file : String) (line : ℕ) (func : String) → Holds {J = J} (check_jvmti_error file line func)
  unfolding check_jvmti_error
  check_jvmti_error-Holds file line func w h =
      Ends-branch (is_none_error w.lj_err) (returns h) (lua_interface_error-Ends _ _)

  push_chars-Pushes :
      (text : Option Ptr) (chars : Option String) → Pushes {J = J} (push_chars text chars)
  push_chars-Pushes text none w = returns filled
  push_chars-Pushes text (some s) w = exception_check-Holds _ _ _ filled

  pub new_string-Pushes : (text : Option Ptr) → Pushes {J = J} (new_string text)
  unfolding new_string
  new_string-Pushes text w = push_chars-Pushes text _ _

  pub push_jvalue-Pushes : (type : JType) (v : JValue) → Pushes {J = J} (push_jvalue type v)
  push_jvalue-Pushes JType.object_type v = new_jobject-Pushes _
  push_jvalue-Pushes JType.void_type v = λ w. returns filled
  push_jvalue-Pushes _ v = λ w. returns filled
