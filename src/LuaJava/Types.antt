-- ===== src/LuaJava/Types.antt =====
-- lua_java.c: what the functions for local variables, fields and arrays share: telling the type from
-- a signature, and pushing a `jvalue`.
use Prim.Native.String.{slice}
use yellow_tree.Common.{Bool, false, String, str_eq, ◌||◌, Option, none, some, if◌then◌else◌, ℕ}
use yellow_tree.Common.Int.{ℤ, pos}
use yellow_tree.Runtime.Value.{Value, JValue}
use yellow_tree.Runtime.Jni.{
  JType, object_type, boolean_type, byte_type, char_type, short_type, int_type, long_type,
  float_type, double_type, void_type,
}
use yellow_tree.Runtime.Host.{Host}
use yellow_tree.Runtime.World.{Cmd}
use yellow_tree.Runtime.Stack.{push}
use yellow_tree.Bridge.{new_jobject}
use yellow_tree.LuaJava.{object_in}

-- `*s` and `s[1]`, as texts: empty at the final zero
abbrev pub first : String → String
first s = slice s 0 1

abbrev pub second : String → String
second s = slice s 1 2

abbrev pub boolean_in : JValue → Bool
boolean_in (JValue.z v) = v
boolean_in _ = false

abbrev pub integer_in : JValue → ℤ
integer_in (JValue.b v) = v
integer_in (JValue.c v) = v
integer_in (JValue.s v) = v
integer_in (JValue.i v) = v
integer_in (JValue.j v) = v
integer_in _ = pos 0

abbrev pub number_in : JValue → ℕ
number_in (JValue.f v) = v
number_in (JValue.d v) = v
number_in _ = 0

-- a class or an array, by the first character, or one of the eight letters
unfoldable pub sig_type : String → Option JType
sig_type sig =
    if str_eq (first sig) "L" || str_eq (first sig) "["
    then some object_type
    else if str_eq sig "Z"
    then some boolean_type
    else if str_eq sig "B"
    then some byte_type
    else if str_eq sig "C"
    then some char_type
    else if str_eq sig "S"
    then some short_type
    else if str_eq sig "I"
    then some int_type
    else if str_eq sig "J"
    then some long_type
    else if str_eq sig "F"
    then some float_type
    else if str_eq sig "D"
    then some double_type
    else none

module _ {J : Type 0} ⦃host : Host J⦄ where
  abbrev pub push_jvalue : JType → JValue → Cmd J (Unit {0})
  push_jvalue void_type v = push Value.nil
  push_jvalue object_type v = new_jobject (object_in v)
  push_jvalue boolean_type v = push (Value.boolean (boolean_in v))
  push_jvalue byte_type v = push (Value.integer (integer_in v))
  push_jvalue char_type v = push (Value.integer (integer_in v))
  push_jvalue short_type v = push (Value.integer (integer_in v))
  push_jvalue int_type v = push (Value.integer (integer_in v))
  push_jvalue long_type v = push (Value.integer (integer_in v))
  push_jvalue float_type v = push (Value.number (host.lua.widen (number_in v)))
  push_jvalue double_type v = push (Value.number (number_in v))
