-- ===== src/Runtime/Calls.antt =====
-- Calls of the JVM with their bookkeeping: `lj_err = (*jvmti)->F(...)` keeps the error code, and a
-- call that succeeds adds the buffers that it allocated to those that are outstanding.
use yellow_tree.Common.{Option, none, some, List, [], ◌∷◌, if◌then◌else◌}
use yellow_tree.Runtime.Value.{Ptr, Buffer, LocalVariableEntry, JvmtiError, is_none_error}
use yellow_tree.Runtime.World.{Cmd, ok}

abbrev pub add_buffer : Option Ptr → List Ptr → List Ptr
add_buffer none ps = ps
add_buffer (some p) ps = p ∷ ps

-- The buffers that a table of local variables refers to, besides its own.
abbrev pub add_variables : List LocalVariableEntry → List Ptr → List Ptr
add_variables [] ps = ps
add_variables (v ∷ vs) ps = add_variables vs (add_buffer v.signature.at (add_buffer v.name.at ps))

module _ {J : Type 0} where
  abbrev pub jvmti_call : (J → JvmtiError × J) → Cmd J (Unit {0})
  jvmti_call f w = let (e, j) = f w.jvm in ok tt (record w { jvm = j; lj_err = e })

  -- The same where the code drops the error code.
  abbrev pub jvmti_ignore : (J → JvmtiError × J) → Cmd J (Unit {0})
  jvmti_ignore f w = let (e, j) = f w.jvm in ok tt (record w { jvm = j })

  abbrev pub jvmti_get : {A : Type 0} → (J → JvmtiError × A × J) → Cmd J A
  jvmti_get f w = let (e, a, j) = f w.jvm in ok a (record w { jvm = j; lj_err = e })

  -- A call that allocates: `held` says what it adds on success.
  abbrev pub jvmti_alloc :
      {A : Type 0} → (A → List Ptr → List Ptr) → (J → JvmtiError × A × J) → Cmd J A
  jvmti_alloc held f w =
      let (e, a, j) = f w.jvm in
      ok a (record w {
        jvm = j;
        lj_err = e;
        buffers = if is_none_error e then held a w.buffers else w.buffers;
      })

  abbrev pub jvmti_buffer : {A : Type 0} → (J → JvmtiError × Buffer A × J) → Cmd J (Buffer A)
  jvmti_buffer = jvmti_alloc (λ b. add_buffer b.at)

  abbrev pub jvmti_buffers :
      {A B : Type 0} → (J → JvmtiError × (Buffer A × Buffer B) × J) → Cmd J (Buffer A × Buffer B)
  jvmti_buffers = jvmti_alloc (λ p ps. add_buffer p.1.at (add_buffer p.0.at ps))

  -- A JNI call that answers with a value, and one that does not.
  abbrev pub jni_get : {A : Type 0} → (J → A × J) → Cmd J A
  jni_get f w = let (a, j) = f w.jvm in ok a (record w { jvm = j })

  abbrev pub jni_do : (J → J) → Cmd J (Unit {0})
  jni_do f w = ok tt (record w { jvm = f w.jvm })
