-- ===== src/LuaJava/Array.antt =====
-- lua_java.c: the length and the elements of an array.
use Prim.Native.String.{◌++◌}
use yellow_tree.Common.{String, str_eq, ◌||◌, Option, none, some, if◌then◌else◌, ℕ, ◌^◌}
use yellow_tree.Common.Int.{ℤ, pos, narrow, narrow_unsigned, ◌-ℤ◌}
use yellow_tree.Runtime.Value.{Value, Ptr, JValue}
use yellow_tree.Runtime.Jni.{JType}
use yellow_tree.Runtime.Host.{Host}
use yellow_tree.Runtime.World.{Cmd, ok, pure, ◌>>=◌, ◌>>◌, assert, gets}
use yellow_tree.Runtime.Stack.{
  arg, push, lua_pop, check_object, check_integer, check_string, check_boolean, check_number,
}
use yellow_tree.Runtime.Calls.{jni_get, jni_do}
use yellow_tree.JniUtil.{exception_check}
use yellow_tree.LuaInterface.{lua_interface_error}
use yellow_tree.LuaJava.Types.{first, second, push_jvalue}

-- `switch (class_name[1])`
unfoldable pub element_type : String → Option JType
element_type class_name =
    let s = second class_name in
    if str_eq s "L" || str_eq s "["
    then some JType.object_type
    else if str_eq s "Z"
    then some JType.boolean_type
    else if str_eq s "B"
    then some JType.byte_type
    else if str_eq s "C"
    then some JType.char_type
    else if str_eq s "S"
    then some JType.short_type
    else if str_eq s "I"
    then some JType.int_type
    else if str_eq s "J"
    then some JType.long_type
    else if str_eq s "F"
    then some JType.float_type
    else if str_eq s "D"
    then some JType.double_type
    else none

-- The line of the check in each branch of the two functions.
abbrev get_line : JType → ℕ
get_line JType.void_type = 0
get_line JType.object_type = 679
get_line JType.boolean_type = 684
get_line JType.byte_type = 689
get_line JType.char_type = 694
get_line JType.short_type = 699
get_line JType.int_type = 704
get_line JType.long_type = 709
get_line JType.float_type = 714
get_line JType.double_type = 719

abbrev set_line : JType → ℕ
set_line JType.void_type = 0
set_line JType.object_type = 750
set_line JType.boolean_type = 757
set_line JType.byte_type = 762
set_line JType.char_type = 767
set_line JType.short_type = 772
set_line JType.int_type = 777
set_line JType.long_type = 782
set_line JType.float_type = 787
set_line JType.double_type = 792

-- A Lua integer counts from 1; the difference is converted to a `jsize`.
abbrev pub jni_index : ℤ → ℤ
jni_index n = narrow (2 ^ 32) (n -ℤ pos 1)

module _ {J : Type 0} ⦃host : Host J⦄ where
  unfoldable pub lj_get_array_length : Cmd J ℕ
  lj_get_array_length = do
    array ← check_object 1
    length ← jni_get (host.jni.get_array_length array)
    exception_check "lua_java.c" 658
    lua_pop 1
    push (Value.integer length)
    pure 1

  abbrev pub push_element :
      Option JType → (class_name : String) (array : Ptr) (i : ℤ) → Cmd J (Unit {0})
  push_element none class_name array i =
      lua_interface_error ("Unknown array class: " ++ class_name ++ "\n")
  push_element (some type) class_name array i = do
    val ← jni_get (host.jni.get_array_element type array i)
    exception_check "lua_java.c" (get_line type)
    push_jvalue type val

  unfoldable pub lj_get_array_element : Cmd J ℕ
  lj_get_array_element = do
    array ← check_object 1
    class_name ← check_string 2
    n ← check_integer 3
    lua_pop 3
    assert (str_eq (first class_name) "[")
    push_element (element_type class_name) class_name array (jni_index n)
    pure 1

  -- `lua_isnil(L, 4)`: a missing argument is not nil
  abbrev pub object_or_null : Option Value → Cmd J (Option Ptr)
  object_or_null (some Value.nil) w = ok none w
  object_or_null v w = (check_object 4 >>= λ p. pure (some p)) w

  -- The fourth argument, converted to the member of the `jvalue`.
  unfoldable pub check_jvalue : JType → Cmd J JValue
  check_jvalue JType.void_type = pure JValue.zeroed
  check_jvalue JType.object_type = do
    p ← gets (λ w. w.frame) >>= λ frame. object_or_null (arg 4 frame)
    pure (JValue.l p)
  check_jvalue JType.boolean_type = check_boolean 4 >>= λ v. pure (JValue.z v)
  check_jvalue JType.byte_type = check_integer 4 >>= λ v. pure (JValue.b (narrow (2 ^ 8) v))
  check_jvalue JType.char_type =
      check_integer 4 >>= λ v. pure (JValue.c (narrow_unsigned (2 ^ 16) v))
  check_jvalue JType.short_type = check_integer 4 >>= λ v. pure (JValue.s (narrow (2 ^ 16) v))
  check_jvalue JType.int_type = check_integer 4 >>= λ v. pure (JValue.i (narrow (2 ^ 32) v))
  check_jvalue JType.long_type = check_integer 4 >>= λ v. pure (JValue.j v)
  check_jvalue JType.float_type = check_number 4 >>= λ v. pure (JValue.f (host.lua.narrow_float v))
  check_jvalue JType.double_type = check_number 4 >>= λ v. pure (JValue.d v)

  -- a class that is not known is passed over
  abbrev pub store_element : Option JType → (array : Ptr) (i : ℤ) → Cmd J (Unit {0})
  store_element none array i = pure tt
  store_element (some type) array i = do
    val ← check_jvalue type
    jni_do (host.jni.set_array_element type array i val)
    exception_check "lua_java.c" (set_line type)

  unfoldable pub lj_set_array_element : Cmd J ℕ
  unfolding check_jvalue
  lj_set_array_element = do
    array ← check_object 1
    class_name ← check_string 2
    n ← check_integer 3
    assert (str_eq (first class_name) "[")
    store_element (element_type class_name) array (jni_index n)
    lua_pop 4
    pure 0
