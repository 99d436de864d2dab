-- ===== src/LuaJava/Values.antt =====
-- What reading a field and an element of an array answers.
use yellow_tree.Common.{Option, ℕ, false, String, none, some, [], ◌∷◌, ◌≡◌, refl, ◌^◌}
use yellow_tree.Common.Int.{ℤ, narrow, narrow_unsigned}
use yellow_tree.Runtime.Value.{Value, Ptr, JValue, object, object_or_nil}
use yellow_tree.Runtime.Jni.{JType}
use yellow_tree.Runtime.Host.{Host}
use yellow_tree.Runtime.World.{World, ok, enter, and_then}
use yellow_tree.Bridge.{new_jobject}
use yellow_tree.JniUtil.{exception_check}
use yellow_tree.LuaJava.{object_in}
use yellow_tree.LuaJava.Types.{boolean_in, integer_in, number_in, push_jvalue}
use yellow_tree.LuaJava.Array.{lj_get_array_element, lj_set_array_element, jni_index, element_type}

-- The Lua value of a `jvalue`.
abbrev pub value_of : {J : Type 0} → Host J → JType → JValue → Value
value_of host JType.void_type v = Value.nil
value_of host JType.object_type v = object_or_nil (object_in v)
value_of host JType.boolean_type v = Value.boolean (boolean_in v)
value_of host JType.byte_type v = Value.integer (integer_in v)
value_of host JType.char_type v = Value.integer (integer_in v)
value_of host JType.short_type v = Value.integer (integer_in v)
value_of host JType.int_type v = Value.integer (integer_in v)
value_of host JType.long_type v = Value.integer (integer_in v)
value_of host JType.float_type v = Value.number (host.lua.widen (number_in v))
value_of host JType.double_type v = Value.number (number_in v)

-- The array classes whose elements are integers, and what storing one makes of it.
pub data IntegerArray : Type 0 where
  bytes chars shorts ints longs : IntegerArray

abbrev pub class_of : IntegerArray → String
class_of bytes = "[B"
class_of chars = "[C"
class_of shorts = "[S"
class_of ints = "[I"
class_of longs = "[J"

abbrev pub type_of : IntegerArray → JType
type_of bytes = JType.byte_type
type_of chars = JType.char_type
type_of shorts = JType.short_type
type_of ints = JType.int_type
type_of longs = JType.long_type

abbrev pub converted : IntegerArray → ℤ → ℤ
converted bytes n = narrow (2 ^ 8) n
converted chars n = narrow_unsigned (2 ^ 16) n
converted shorts n = narrow (2 ^ 16) n
converted ints n = narrow (2 ^ 32) n
converted longs n = n

abbrev pub jvalue_of : IntegerArray → ℤ → JValue
jvalue_of bytes n = JValue.b n
jvalue_of chars n = JValue.c n
jvalue_of shorts n = JValue.s n
jvalue_of ints n = JValue.i n
jvalue_of longs n = JValue.j n

module _ {J : Type 0} ⦃host : Host J⦄ where
  pub push_jvalue-value :
      (t : JType) (v : JValue) (w : World J)
      → push_jvalue t v w ≡ ok tt (record w { frame = value_of host t v ∷ w.frame })
  unfolding new_jobject
  push_jvalue-value JType.object_type (JValue.l none) w = refl
  push_jvalue-value JType.object_type (JValue.l (some p)) w = refl
  push_jvalue-value JType.object_type _ w = refl
  push_jvalue-value _ v w = refl

  pub new_jobject-value :
      (p : Option Ptr) (w : World J)
      → new_jobject p w ≡ ok tt (record w { frame = object_or_nil p ∷ w.frame })
  unfolding new_jobject
  new_jobject-value none w = refl
  new_jobject-value (some p) w = refl

  pub no_exception :
      (file : String) (line : ℕ) (w : World J)
      → host.jni.exception_check w.jvm ≡ false
      → exception_check file line w ≡ ok tt w
  unfolding exception_check
  no_exception file line w h = rw h refl

  -- An integer that lj_set_array_element stores at some index is read back by lj_get_array_element
  -- as the array's type narrows it: 8 bits signed for bytes, 16 unsigned for chars, 16 and 32
  -- signed for shorts and ints, and as it is for longs; JNI reads what it stored and no exception
  -- is pending.
  pub array_integer-roundtrip :
      (k : IntegerArray) (a : Ptr) (i n : ℤ) (j : J) (w : World J)
      → host.jni.get_array_element (type_of k) a (jni_index i) (
          host.jni.set_array_element
            (type_of k)
            a
            (jni_index i)
            (jvalue_of k (converted k n))
            w.jvm)
        ≡ (jvalue_of k (converted k n), j)
      → host.jni.exception_check (
          host.jni.set_array_element
            (type_of k)
            a
            (jni_index i)
            (jvalue_of k (converted k n))
            w.jvm)
        ≡ false
      → host.jni.exception_check j ≡ false
      → and_then
          (lj_set_array_element (
            enter
              (Value.integer n ∷ Value.integer i ∷ Value.string (class_of k) ∷ object a ∷ [])
              w))
          (λ _ v.
            lj_get_array_element
              (enter (Value.integer i ∷ Value.string (class_of k) ∷ object a ∷ []) v))
        ≡ ok 1 (record w { frame = Value.integer (converted k n) ∷ []; jvm = j })
  unfolding lj_get_array_element lj_set_array_element element_type exception_check
  array_integer-roundtrip bytes a i n j w h calm calm' = rw (calm, h, calm') refl
  array_integer-roundtrip _ a i n j w h calm calm' = rw (calm, h, calm') refl
