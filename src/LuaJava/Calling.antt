-- ===== src/LuaJava/Calling.antt =====
-- What `lj_call_method` hands to JNI, and what it answers.
use yellow_tree.Common.{
  ℕ, none, inl, inr, Bool-cases, ap, str_eq, Option, Bool, false, String, some, List, [], ◌∷◌, ◌≡◌,
  refl, if◌then◌else◌, length, ◌+◌, ◌*◌, ◌<◌, arith,
}
use yellow_tree.Common.Int.{pos}
use yellow_tree.Runtime.Value.{Value, Ptr, JValue, Buffer, error_none, object, method}
use yellow_tree.Bridge.{new_jobject, new_string}
use yellow_tree.Runtime.Jni.{JType}
use yellow_tree.Runtime.Host.{Host}
use yellow_tree.Runtime.World.{pure, Cmd, ◌>>=◌, ◌>>◌, World, ok, enter}
use yellow_tree.JniUtil.{free_jvmti_refs, exception_check}
use yellow_tree.LuaJava.{object_in, check_jvmti_error}
use yellow_tree.LuaJava.Values.{new_jobject-value, value_of, push_jvalue-value, no_exception}
use yellow_tree.LuaJava.Call.{call_return, return_type, call_letter, call_or_create, lj_call_method}
use yellow_tree.Lj.Frames.{narrow-small}
use yellow_tree.Lj.Tables.{==_self}
use yellow_tree.LuaJava.Arguments.{
  stacked, length-stacked, arg-stacked, drop-all, Argument, pairs, length-pairs, jvalues,
  arguments_loop-values,
}
use yellow_tree.LuaJava.Return.{
  Return, letter_of, member_of, called, text_of, answer, nothing, object_result, array_result,
  string_result,
}

module _ {J : Type 0} ⦃host : Host J⦄ where
  call_letter-value :
      (o m : Ptr) (b : Bool) (t : JType) (ret : String) (js : List JValue) (v : JValue) (j : J)
      (w : World J)
      → (if b then host.jni.call_static_method_a t o m js else host.jni.call_method_a t o m js)
          w.jvm
        ≡ (v, j)
      → host.jni.exception_check j ≡ false
      → call_letter (some t) ret b o m js w
        ≡ ok 1 (record w { frame = value_of host t v ∷ w.frame; jvm = j })
  call_letter-value o m b t ret js v j w called calm =
      let u = record w { jvm = j } in
      rw called (rw (no_exception "lua_java.c" _ u calm) (rw (push_jvalue-value t v u) refl))

  call_or_create-value :
      (o m : Ptr) (b : Bool) (name : String) (js : List JValue) (v : JValue) (j : J) (w : World J)
      → called host JType.object_type name b o m js w.jvm ≡ (v, j)
      → call_or_create name b o m js w ≡ ok (object_in v) (record w { jvm = j })
  call_or_create-value o m b name js v j w h = elim (Bool-cases (str_eq name "<init>")) [
    | inl e ↦ rw e (ap (λ r. ok (object_in r.0) (record w { jvm = r.1 })) (rw e at h))
    | inr e ↦ rw e (ap (λ r. ok (object_in r.0) (record w { jvm = r.1 })) (rw e at h))
  ]

  -- An object that a method returned is handled once no exception is pending.
  made-value :
      (o m : Ptr) (b : Bool) (name : String) (js : List JValue) (v : JValue) (j : J) (w : World J)
      (f : Option Ptr → Cmd J ℕ)
      → called host JType.object_type name b o m js w.jvm ≡ (v, j)
      → host.jni.exception_check j ≡ false
      → (call_or_create name b o m js >>= λ val. exception_check "lua_java.c" 379 >> f val) w
        ≡ f (object_in v) (record w { jvm = j })
  made-value o m b name js v j w f h calm =
      rw (call_or_create-value o m b name js v j w h)
        (rw (no_exception "lua_java.c" _ (record w { jvm = j }) calm) refl)

  new_string-value :
      (p : Option Ptr) (c : Option String × J) (w : World J)
      → host.jni.get_string_utf_chars p w.jvm ≡ c
      → host.jni.exception_check (text_of host p c).1 ≡ false
      → new_string p w
        ≡ ok tt (record w { frame = (text_of host p c).0 ∷ w.frame; jvm = (text_of host p c).1 })
  unfolding new_string
  new_string-value p (none, j) w h calm = rw h refl
  new_string-value p (some s, j) w h calm = rw h (
      no_exception "java_bridge/types.c" _
        (record w { frame = Value.string s ∷ w.frame; jvm = host.jni.release_string_utf_chars p j })
        calm)

  -- The call of a method and the results of the Lua function.
  call_return-value :
      (o m : Ptr) (b : Bool) (k : Return) (js : List JValue) (name : String) (v : JValue) (j : J)
      (w : World J)
      → called host (member_of k) name b o m js w.jvm ≡ (v, j)
      → host.jni.exception_check j ≡ false
      → host.jni.exception_check (answer host k (v, j)).1 ≡ false
      → w.frame ≡ []
      → call_return (letter_of k) name b o m js w
        ≡ ok
            (length (answer host k (v, j)).0)
            (record w { frame = (answer host k (v, j)).0; jvm = (answer host k (v, j)).1 })
  unfolding call_return return_type
  call_return-value o m b nothing js name v j w h calm calm' e =
      rw h (rw (no_exception "lua_java.c" _ (record w { jvm = j }) calm) (rw e refl))
  call_return-value o m b object_result js name v j w h calm calm' e =
      rw (made-value o m b name js v j w (λ val. new_jobject val >> pure 1) h calm)
        (rw (new_jobject-value (object_in v) (record w { jvm = j })) (rw e refl))
  call_return-value o m b array_result js name v j w h calm calm' e =
      rw (made-value o m b name js v j w (λ val. new_jobject val >> pure 1) h calm)
        (rw (new_jobject-value (object_in v) (record w { jvm = j })) (rw e refl))
  call_return-value o m b string_result js name v j w h calm calm' e =
      rw (made-value o m b name js v j w (λ val. new_string val >> pure 1) h calm)
        (rw (new_string-value (object_in v) _ (record w { jvm = j }) refl calm') (rw e refl))
  call_return-value o m b k js name v j w h calm calm' e =
      rw (call_letter-value o m b (member_of k) (letter_of k) js v j w h calm) (rw e refl)

  -- For a method, static or not, or a constructor that returns nothing, an object, an array, a
  -- text or a value of a primitive type, and any number of arguments of the kinds object, null,
  -- text, boolean, byte, char, short, int, long, float and double, lj_call_method makes one call
  -- with those arguments, in order and converted to their types, and returns the value of it; no
  -- argument and no buffer is left. JVMTI answers with the method's name, and no Java exception is
  -- pending after the call and after a text has been read.
  pub call_method-answer :
      (o m p : Ptr) (b : Bool) (k : Return) (args : List Argument) (name : String)
      (sig : Buffer String) (v : JValue) (i j : J) (w : World J)
      → length args < 2147483648
      → host.jvmti.get_method_name m w.jvm
        ≡ (error_none, (record { at = some p; contents = name }, sig), i)
      → called host (member_of k) name b o m (jvalues host args i).0 (jvalues host args i).1
        ≡ (v, j)
      → host.jni.exception_check j ≡ false
      → host.jni.exception_check (answer host k (v, j)).1 ≡ false
      → lj_call_method (
          enter
            (stacked
              (object o
                ∷ method m
                ∷ Value.boolean b
                ∷ Value.string (letter_of k)
                ∷ Value.integer (pos (length args))
                ∷ pairs args)
              [])
            w)
        ≡ ok (length (answer host k (v, j)).0) (record w {
          frame = (answer host k (v, j)).0;
          lj_err = error_none;
          jvm = (host.jvmti.deallocate p (answer host k (v, j)).1).1;
        })
  unfolding lj_call_method check_jvmti_error free_jvmti_refs
  call_method-answer o m p b k args name sig v i j w few named done calm calm' =
      let v1 : Value = object o in
      let v2 : Value = method m in
      let v3 = Value.boolean b in
      let v4 = Value.string (letter_of k) in
      let v5 = Value.integer (pos (length args)) in
      let rest = pairs args in
      let below = v5 ∷ v4 ∷ v3 ∷ v2 ∷ v1 ∷ [] in
      let u = record w { lj_err = error_none; buffers = p ∷ w.buffers; jvm = i } in
      rw
        (
          arg-stacked v1 (v2 ∷ v3 ∷ v4 ∷ v5 ∷ rest) [],
          arg-stacked v2 (v3 ∷ v4 ∷ v5 ∷ rest) (v1 ∷ []),
          arg-stacked v3 (v4 ∷ v5 ∷ rest) (v2 ∷ v1 ∷ []),
          arg-stacked v4 (v5 ∷ rest) (v3 ∷ v2 ∷ v1 ∷ []),
          arg-stacked v5 rest (v4 ∷ v3 ∷ v2 ∷ v1 ∷ []),
        )
        (rw named (
          rw (narrow-small (length args) few) (
            rw (arguments_loop-values args 0 below u) (
              rw
                (drop-all (2 * length args + 5) (stacked rest below)
                  (omega (arith, length-stacked rest below, length-pairs args)))
                (rw
                  (call_return-value o m b k (jvalues host args i).0 name v j
                    (record u { frame = []; jvm = (jvalues host args i).1 }) done calm calm' refl)
                  (rw (==_self p) refl))))))
