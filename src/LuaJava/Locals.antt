-- ===== src/LuaJava/Locals.antt =====
-- What `lj_get_local_variable` answers, type by type.
use Prim.Native.String.{◌++◌}
use yellow_tree.Common.{
  subst, sym, Option, none, ℕ, suc, ◌<◌, true, ◌||◌, String, some, [], ◌∷◌, ◌≡◌, refl, arith, ap,
  if◌then◌else◌,
}
use yellow_tree.Common.Int.{ℤ, pos}
use yellow_tree.Runtime.Value.{Value, Ptr, JvmtiError, is_none_error, object, object_or_nil}
use yellow_tree.Runtime.Host.{Host}
use yellow_tree.Runtime.World.{World, ok, enter, pure, and_then}
use yellow_tree.Runtime.Stack.{push}
use yellow_tree.Bridge.{new_jobject}
use yellow_tree.LuaJava.{check_jvmti_error, get_current_java_thread}
use yellow_tree.LuaJava.Local.{lj_get_local_variable, nil_or, local_variable_is_nil, is_nonzero}
use yellow_tree.LuaJava.References.{
  is_reference, class-IsReference, array-IsReference, str_eq-reference, is_int_type-reference,
}
use yellow_tree.Lj.Frames.{narrow-small, pred_frame}

-- The types of a local variable, with their signatures.
pub data LocalType : Type 0 where
  boolean byte char short int long float double : LocalType
  class_type array_type : String → LocalType

abbrev pub letter : LocalType → String
letter boolean = "Z"
letter byte = "B"
letter char = "C"
letter short = "S"
letter int = "I"
letter long = "J"
letter float = "F"
letter double = "D"
letter (class_type s) = "L" ++ s
letter (array_type s) = "[" ++ s

-- The line of the check for a type.
abbrev line_of : LocalType → ℕ
line_of long = 189
line_of float = 203
line_of double = 217
line_of (class_type s) = 235
line_of (array_type s) = 235
line_of _ = 172

-- The function of JVMTI that is asked, and what Lua sees of its answer.
abbrev pub ask_int : {J : Type 0} → Host J → (ℤ → Value) → Ptr → ℤ → ℤ → J → JvmtiError × Value × J
ask_int host f t d s j = let (e, v, j') = host.jvmti.get_local_int t d s j in (e, f v, j')

abbrev pub ask_object : {J : Type 0} → Host J → Ptr → ℤ → ℤ → J → JvmtiError × Value × J
ask_object host t d s j =
    let (e, v, j') = host.jvmti.get_local_object t d s j in (e, object_or_nil v, j')

abbrev pub ask : {J : Type 0} → Host J → LocalType → Ptr → ℤ → ℤ → J → JvmtiError × Value × J
ask host boolean t d s j = ask_int host (λ v. Value.boolean (is_nonzero v)) t d s j
ask host byte t d s j = ask_int host Value.integer t d s j
ask host char t d s j = ask_int host Value.integer t d s j
ask host short t d s j = ask_int host Value.integer t d s j
ask host int t d s j = ask_int host Value.integer t d s j
ask host long t d s j =
    let (e, v, j') = host.jvmti.get_local_long t d s j in (e, Value.integer v, j')
ask host float t d s j =
    let (e, v, j') = host.jvmti.get_local_float t d s j in (e, Value.number (host.lua.widen v), j')
ask host double t d s j =
    let (e, v, j') = host.jvmti.get_local_double t d s j in (e, Value.number v, j')
ask host (class_type _) t d s j = ask_object host t d s j
ask host (array_type _) t d s j = ask_object host t d s j

module _ {J : Type 0} ⦃host : Host J⦄ where
  nil_or-answer :
      (line : ℕ) (v : Value) (w : World J)
      → (local_variable_is_nil w.lj_err || is_none_error w.lj_err) ≡ true
      → nil_or line (push v) w
        ≡ ok tt (record w {
          frame = (if local_variable_is_nil w.lj_err then Value.nil else v) ∷ w.frame;
        })
  unfolding nil_or check_jvmti_error
  nil_or-answer line v w h = ground arith

  answered :
      (line : ℕ) (t : Ptr) (e : JvmtiError) (v : Value) (j : J) (w : World J)
      → (local_variable_is_nil e || is_none_error e) ≡ true
      → and_then {B = ℕ}
          (nil_or line
            (push v)
            (record w { frame = []; lj_err = e; lj_current_thread = some t; jvm = j }))
          (λ _. pure 1)
        ≡ ok 1 (record w {
          frame = (if local_variable_is_nil e then Value.nil else v) ∷ [];
          lj_err = e;
          lj_current_thread = some t;
          jvm = j;
        })
  answered line t e v j w h =
      rw
        (nil_or-answer line v
          (record w { frame = []; lj_err = e; lj_current_thread = some t; jvm = j }) h)
        refl

  nil_or-object :
      (line : ℕ) (o : Option Ptr) (w : World J)
      → (local_variable_is_nil w.lj_err || is_none_error w.lj_err) ≡ true
      → nil_or line (new_jobject o) w
        ≡ ok tt (record w {
          frame = (if local_variable_is_nil w.lj_err then Value.nil else object_or_nil o) ∷ w.frame;
        })
  unfolding new_jobject
  nil_or-object line none w h = nil_or-answer line Value.nil w h
  nil_or-object line (some p) w h = nil_or-answer line (object p) w h

  -- The branch for objects.
  object_variable-answer :
      (type : String) (t : Ptr) (d s : ℕ) (e : JvmtiError) (v : Value) (j : J) (w : World J)
      → is_reference type ≡ true
      → suc d < 2147483648
      → s < 2147483648
      → w.lj_current_thread ≡ some t
      → ask_object host t (pos d) (pos s) w.jvm ≡ (e, v, j)
      → (local_variable_is_nil e || is_none_error e) ≡ true
      → lj_get_local_variable
          (enter (Value.string type ∷ Value.integer (pos s) ∷ Value.integer (pos (suc d)) ∷ []) w)
        ≡ ok 1 (record w {
          frame = (if local_variable_is_nil e then Value.nil else v) ∷ [];
          lj_err = e;
          jvm = j;
        })
  unfolding lj_get_local_variable get_current_java_thread
  object_variable-answer type t d s e v j w ref ld ls here h expected =
      let answer = host.jvmti.get_local_object t (pos d) (pos s) w.jvm in
      let u = record w {
        frame = [];
        lj_err = answer.0;
        lj_current_thread = some t;
        jvm = answer.2;
      } in
      let same : answer.0 ≡ e = ap (λ p. p.0) h in
      let ends =
        nil_or-object 235 answer.1 u
          (subst (λ e. (local_variable_is_nil e || is_none_error e) ≡ true) (sym same) expected) in
      rw (narrow-small (suc d) ld, narrow-small s ls)
        (rw
          (
            is_int_type-reference type ref,
            str_eq-reference type "J" ref refl,
            str_eq-reference type "F" ref refl,
            str_eq-reference type "D" ref refl,
            ref,
          )
          (rw here (
            rw (pred_frame d, narrow-small d (omega arith))
              (rw ends (rw (same, ap (λ p. p.1) h, ap (λ p. p.2) h) refl)))))

  -- For frame d + 1 and a slot, both in the range of an int, lj_get_local_variable asks JVMTI for
  -- the local variable of the current thread at depth d; for each of the eight primitive types and
  -- for any class or array it returns the value, or nil where the slot is invalid, the type is
  -- another or a pointer is null; those are the errors considered.
  pub local_variable-answer :
      (k : LocalType) (t : Ptr) (d s : ℕ) (e : JvmtiError) (v : Value) (j : J) (w : World J)
      → suc d < 2147483648
      → s < 2147483648
      → w.lj_current_thread ≡ some t
      → ask host k t (pos d) (pos s) w.jvm ≡ (e, v, j)
      → (local_variable_is_nil e || is_none_error e) ≡ true
      → lj_get_local_variable (
          enter
            (Value.string (letter k) ∷ Value.integer (pos s) ∷ Value.integer (pos (suc d)) ∷ [])
            w)
        ≡ ok 1 (record w {
          frame = (if local_variable_is_nil e then Value.nil else v) ∷ [];
          lj_err = e;
          jvm = j;
        })
  unfolding lj_get_local_variable get_current_java_thread
  local_variable-answer boolean t d s e v j w ld ls here h expected =
      rw (narrow-small (suc d) ld, narrow-small s ls)
        (rw here (
          rw (pred_frame d, narrow-small d (omega arith))
            (rw (ap (λ p. p.0) h, ap (λ p. p.1) h, ap (λ p. p.2) h)
              (answered 172 t e v j w expected))))
  local_variable-answer (class_type c) t d s e v j w ld ls here h expected =
      object_variable-answer ("L" ++ c) t d s e v j w (class-IsReference c) ld ls here h expected
  local_variable-answer (array_type c) t d s e v j w ld ls here h expected =
      object_variable-answer ("[" ++ c) t d s e v j w (array-IsReference c) ld ls here h expected
  local_variable-answer k t d s e v j w ld ls here h expected =
      rw (narrow-small (suc d) ld, narrow-small s ls)
        (rw here (
          rw (pred_frame d, narrow-small d (omega arith))
            (rw (ap (λ p. p.0) h, ap (λ p. p.1) h, ap (λ p. p.2) h)
              (answered (line_of k) t e v j w expected))))
