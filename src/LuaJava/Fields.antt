-- ===== src/LuaJava/Fields.antt =====
-- What `lj_get_field` answers, type by type.
use yellow_tree.Common.{Bool, false, String, some, [], ◌∷◌, ◌≡◌, refl, if◌then◌else◌}
use yellow_tree.Runtime.Value.{Value, Ptr, JValue, Buffer, error_none, object, field_of}
use yellow_tree.Runtime.Jni.{JType}
use yellow_tree.Runtime.Host.{Host}
use yellow_tree.Runtime.World.{World, ok, enter}
use yellow_tree.LuaJava.{check_jvmti_error}
use yellow_tree.LuaJava.Types.{sig_type}
use yellow_tree.LuaJava.GetField.{lj_get_field}
use yellow_tree.LuaJava.References.{class-IsReference, array-IsReference}
use yellow_tree.LuaJava.Locals.{
  LocalType, letter, boolean, byte, char, short, int, long, float, double, class_type, array_type,
}
use yellow_tree.LuaJava.Values.{value_of, push_jvalue-value, no_exception}

-- The family of JNI's functions that reads a field of a type, and the member of `jvalue` with its
-- value.
abbrev pub family_of : LocalType → JType
family_of boolean = JType.boolean_type
family_of byte = JType.byte_type
family_of char = JType.char_type
family_of short = JType.short_type
family_of int = JType.int_type
family_of long = JType.long_type
family_of float = JType.float_type
family_of double = JType.double_type
family_of (class_type s) = JType.object_type
family_of (array_type s) = JType.object_type

sig_type-letter : (k : LocalType) → sig_type (letter k) ≡ some (family_of k)
unfolding sig_type
sig_type-letter (class_type s) = rw (class-IsReference s) refl
sig_type-letter (array_type s) = rw (array-IsReference s) refl
sig_type-letter boolean = refl
sig_type-letter _ = refl

module _ {J : Type 0} ⦃host : Host J⦄ where
  -- For a field of one of the eight primitive types, of a class or of an array, static or not,
  -- lj_get_field reads it with the JNI function of that type and returns its value, and the buffer
  -- of the signature stays allocated. JVMTI and JNI answer, and no Java exception is pending.
  pub field_value-leaks :
      (t : LocalType) (o f k p : Ptr) (b : Bool) (name : Buffer String) (v : JValue) (i j : J)
      (w : World J)
      → host.jvmti.get_field_name k f w.jvm
        ≡ (error_none, (name, record { at = some p; contents = letter t }), i)
      → (if b
            then host.jni.get_static_field (family_of t) o f
            else host.jni.get_field (family_of t) o f)
          i
        ≡ (v, j)
      → host.jni.exception_check j ≡ false
      → lj_get_field (enter (Value.boolean b ∷ field_of f k ∷ object o ∷ []) w)
        ≡ ok 1 (record w {
          frame = value_of host (family_of t) v ∷ [];
          lj_err = error_none;
          buffers = p ∷ w.buffers;
          jvm = j;
        })
  unfolding lj_get_field check_jvmti_error
  field_value-leaks t o f k p b name v i j w named found calm =
      let u = record w { frame = []; lj_err = error_none; buffers = p ∷ w.buffers; jvm = j } in
      rw named (
        rw (sig_type-letter t) (
          rw found (
            rw (no_exception "lua_java.c" _ u calm)
              (rw (push_jvalue-value (family_of t) v u) refl))))
