-- ===== src/Event/Spares.antt =====
-- The steps of the event component that leave its two tables alone, however they end.
use Prim.Native.String.{len}
use yellow_tree.Common.{ℕ, String, Option, none, some, [], ◌∷◌, List, leb, not}
use yellow_tree.Runtime.Value.{Ptr, Value, JvmtiError, is_none_error, EventCallbacks, EventType}
use yellow_tree.Runtime.Host.{Host}
use yellow_tree.Runtime.World.{CallbackRefs, World, Cmd}
use yellow_tree.Runtime.Stack.{
  ref_top, lua_ref, lua_pop, arg, check_some, check_string, check_function, lua_error_message,
}
use yellow_tree.Runtime.Calls.{jni_get, jvmti_call, jvmti_ignore}
use yellow_tree.Runtime.After.{
  After, returns, raises, aborts, faults, chain, branch, Keeps, Keeps-pure, Keeps-bind, Keeps-then,
}
use yellow_tree.JniUtil.{exception_check}
use yellow_tree.LuaInterface.{
  traceback, lua_interface_error, is_string, is_table, is_function, raise_top, debug_in,
  traceback_in,
}
use yellow_tree.LuaJava.{
  check_jvmti_error, get_current_java_thread, call_current_thread, thread_or_current, assert_some,
}
use yellow_tree.Event.Registry.{enable_event, disable_event, set_no_error, install_callbacks}

-- A property of the two tables, as one of the state.
abbrev pub Tables : {J : Type 0} → (EventCallbacks → CallbackRefs → Type 0) → World J → Type 0
Tables P w = P w.jvmti_callbacks w.callback_refs

-- A command that keeps every property of the two tables.
abbrev pub Spares : {J A : Type 0} → Cmd J A → Type 1
Spares m = (P : EventCallbacks → CallbackRefs → Type 0) → Keeps (Tables P) m

module _ {J : Type 0} where
  pub jni_get-Spares : {A : Type 0} (f : J → A × J) → Spares (jni_get f)
  jni_get-Spares f P = record { at = λ w h. returns h }

  pub jvmti_call-Spares : (f : J → JvmtiError × J) → Spares (jvmti_call f)
  jvmti_call-Spares f P = record { at = λ w h. returns h }

  pub jvmti_ignore-Spares : (f : J → JvmtiError × J) → Spares (jvmti_ignore f)
  jvmti_ignore-Spares f P = record { at = λ w h. returns h }

  pub lua_pop-Spares : (n : ℕ) → Spares (lua_pop {J = J} n)
  lua_pop-Spares n P = record { at = λ w h. returns h }

module _ {J : Type 0} ⦃host : Host J⦄ where
  check_some-After :
      (P : World J → Type 0) {A : Type 0} (n : ℕ) (expected : String) (o : Option A) (w : World J)
      → P w
      → After P (check_some n expected o w)
  check_some-After P n expected none w h = raises h
  check_some-After P n expected (some a) w h = returns h

  pub check_string-Spares : (n : ℕ) → Spares (check_string {J = J} n)
  check_string-Spares n P = record { at = λ w h. check_some-After (Tables P) n _ _ w h }

  pub check_function-Spares : (n : ℕ) → Spares (check_function {J = J} n)
  check_function-Spares n P = record { at = λ w h. check_some-After (Tables P) n _ _ w h }

  ref_top-After :
      (P : EventCallbacks → CallbackRefs → Type 0) (l : List Value) (w : World J)
      → Tables P w
      → After (Tables P) (ref_top l w)
  ref_top-After P [] w h = faults h
  ref_top-After P (Value.nil ∷ l) w h = returns h
  ref_top-After P (_ ∷ l) w h = returns h

  pub lua_ref-Spares : Spares (lua_ref {J = J})
  lua_ref-Spares P = record { at = λ w h. ref_top-After P w.frame w h }

  traceback-Spares : Spares (traceback {J = J})
  unfolding traceback
  traceback-Spares P = record {
    at = λ w h. branch (not (is_string (arg 1 w.frame))) (returns h) (
        branch (not (is_table (debug_in w.globals))) (returns h)
          (branch (not (is_function (traceback_in (debug_in w.globals)))) (returns h) (returns h)));
  }

  pub lua_interface_error-Spares :
      {A : Type 0} (msg : String) → Spares {A = A} (lua_interface_error {J = J} msg)
  unfolding lua_interface_error
  lua_interface_error-Spares msg P = record {
    at = λ w h. branch (leb 500 (len msg)) (faults {w = w} h) (
        chain {k = λ _. raise_top}
          ((traceback-Spares P).at (record w { frame = Value.string msg ∷ w.frame }) h)
          λ a w' h'. raises h');
  }

  pub check_jvmti_error-Spares :
      (file : String) (line : ℕ) (func : String) → Spares (check_jvmti_error {J = J} file line func)
  unfolding check_jvmti_error
  check_jvmti_error-Spares file line func P = record {
    at = λ w h.
        branch (is_none_error w.lj_err) (returns h) ((lua_interface_error-Spares _ P).at _ h);
  }

  exception_check-Spares : (file : String) (line : ℕ) → Spares (exception_check {J = J} file line)
  unfolding exception_check
  exception_check-Spares file line P = record {
    at = λ w h. branch (host.jni.exception_check w.jvm) (returns h) (returns h);
  }

  assert_some-Spares : (o : Option Ptr) → Spares (assert_some {J = J} o)
  assert_some-Spares none P = record { at = λ w h. aborts h }
  assert_some-Spares (some p) P = record { at = λ w h. returns h }

  call_current_thread-Spares : Spares (call_current_thread {J = J})
  unfolding call_current_thread
  call_current_thread-Spares P =
      search (Keeps-bind, Keeps-then, jni_get-Spares, exception_check-Spares, assert_some-Spares)
        depth 20

  thread_or_current-Spares : (o : Option Ptr) → Spares (thread_or_current {J = J} o)
  thread_or_current-Spares (some p) P = record { at = λ w h. returns h }
  thread_or_current-Spares none P = record { at = λ w h. (call_current_thread-Spares P).at w h }

  pub get_current_java_thread-Spares : Spares (get_current_java_thread {J = J})
  unfolding get_current_java_thread
  get_current_java_thread-Spares P = record {
    at = λ w h. (thread_or_current-Spares w.lj_current_thread P).at w h;
  }

  pub enable_event-Spares : (o : Option EventType) → Spares (enable_event {J = J} o)
  enable_event-Spares none P = Keeps-pure tt
  enable_event-Spares (some type) P =
      Keeps-bind (get_current_java_thread-Spares P) λ thread. jvmti_call-Spares _ P

  pub disable_event-Spares : (o : Option EventType) → Spares (disable_event {J = J} o)
  disable_event-Spares none P = Keeps-pure tt
  disable_event-Spares (some type) P =
      search (Keeps-bind, get_current_java_thread-Spares, jvmti_ignore-Spares) depth 6

  pub set_no_error-Spares : Spares (set_no_error {J = J})
  set_no_error-Spares P = record { at = λ w h. returns h }

  pub install_callbacks-Spares : Spares (install_callbacks {J = J})
  install_callbacks-Spares P = record { at = λ w h. returns h }

  pub lua_error_message-Spares :
      {A : Type 0} (msg : String) → Spares {A = A} (lua_error_message {J = J} msg)
  lua_error_message-Spares msg P = record { at = λ w h. raises h }
