-- ===== src/LuaJava/Return.antt =====
-- What a method returns, and what `lj_call_method` is to answer for it.
use yellow_tree.Common.{
  none, true, ◌&&◌, str_eq, Option, Bool, false, String, some, List, [], ◌∷◌, if◌then◌else◌,
}
use yellow_tree.Runtime.Value.{Value, Ptr, JValue}
use yellow_tree.Runtime.Jni.{JType}
use yellow_tree.Runtime.Host.{Host}
use yellow_tree.LuaJava.{object_in}
use yellow_tree.LuaJava.Values.{value_of}

-- What a method returns, by the letters that the Lua code passes for it.
pub data Return : Type 0 where
  nothing object_result array_result string_result : Return
  boolean_result byte_result char_result short_result : Return
  int_result long_result float_result double_result : Return

abbrev pub letter_of : Return → String
letter_of nothing = "V"
letter_of object_result = "L"
letter_of array_result = "["
letter_of string_result = "STR"
letter_of boolean_result = "Z"
letter_of byte_result = "B"
letter_of char_result = "C"
letter_of short_result = "S"
letter_of int_result = "I"
letter_of long_result = "J"
letter_of float_result = "F"
letter_of double_result = "D"

-- The member of the union `jvalue` that the result is stored in.
abbrev pub member_of : Return → JType
member_of nothing = JType.void_type
member_of object_result = JType.object_type
member_of array_result = JType.object_type
member_of string_result = JType.object_type
member_of boolean_result = JType.boolean_type
member_of byte_result = JType.byte_type
member_of char_result = JType.char_type
member_of short_result = JType.short_type
member_of int_result = JType.int_type
member_of long_result = JType.long_type
member_of float_result = JType.float_type
member_of double_result = JType.double_type

abbrev pub is_object : JType → Bool
is_object JType.object_type = true
is_object _ = false

abbrev pub as_jvalue : {J : Type 0} → Option Ptr × J → JValue × J
as_jvalue r = (JValue.l r.0, r.1)

-- The one call that JNI gets: a constructor makes the object.
abbrev pub called :
    {J : Type 0}
    → Host J
    → JType
    → (name : String) → Bool
    → (object method_id : Ptr) → List JValue
    → J
    → JValue × J
called host t name b o m js j =
    if is_object t && str_eq name "<init>"
    then as_jvalue (host.jni.new_object_a o m js j)
    else (if b then host.jni.call_static_method_a t o m js else host.jni.call_method_a t o m js) j

-- The text of a Java string, which is given back to JNI; nil where JNI has none.
abbrev pub text_of : {J : Type 0} → Host J → Option Ptr → Option String × J → Value × J
text_of host p (none, j) = (Value.nil, j)
text_of host p (some s, j) = (Value.string s, host.jni.release_string_utf_chars p j)

-- The results of the Lua function, and the JVM after they have been made.
abbrev pub answer : {J : Type 0} → Host J → Return → JValue × J → List Value × J
answer host nothing (v, j) = ([], j)
answer host string_result (v, j) =
    let t = text_of host (object_in v) (host.jni.get_string_utf_chars (object_in v) j) in
    (t.0 ∷ [], t.1)
answer host k (v, j) = (value_of host (member_of k) v ∷ [], j)
