-- ===== src/LuaJava/Call.antt =====
-- lua_java.c: calling a Java method. The arguments are pairs of a type and a value from the sixth on.
use Prim.Native.String.{◌++◌}
use yellow_tree.Common.{
  Bool, String, str_eq, ◌||◌, Option, none, some, if◌then◌else◌, ℕ, zero, suc, ◌+◌, ◌*◌, ◌-◌, ◌^◌,
  List, [], ◌∷◌, leb, drop, length,
}
use yellow_tree.Common.Int.{ℤ, pos, negsuc, narrow, narrow_unsigned}
use yellow_tree.Runtime.Value.{Value, Ptr, JValue, to_boolean}
use yellow_tree.Runtime.Jni.{JType}
use yellow_tree.Runtime.Host.{Host}
use yellow_tree.Runtime.World.{Cmd, pure, ◌>>=◌, ◌>>◌, gets}
use yellow_tree.Runtime.Stack.{
  arg, check_object, check_method, check_integer, check_string, check_boolean, check_number,
}
use yellow_tree.Runtime.Calls.{jvmti_alloc, jni_get, add_buffer}
use yellow_tree.JniUtil.{exception_check, free_jvmti_refs}
use yellow_tree.Bridge.{new_jobject, new_string}
use yellow_tree.LuaInterface.{lua_interface_error}
use yellow_tree.LuaJava.{check_jvmti_error, object_in, ok}
use yellow_tree.LuaJava.Types.{first, push_jvalue}

-- the loop does not run where `argcount` is negative
abbrev pub count_of : ℤ → ℕ
count_of (pos n) = n
count_of (negsuc n) = 0

abbrev boolean_at : Option Value → Bool
boolean_at none = to_boolean Value.nil
boolean_at (some v) = to_boolean v

abbrev nils : ℕ → List Value → List Value
nils zero frame = frame
nils (suc n) frame = Value.nil ∷ nils n frame

-- `lua_settop(L, n)`
abbrev set_top : ℕ → List Value → List Value
set_top n frame =
    if leb n (length frame) then drop (length frame - n) frame else nils (n - length frame) frame

-- `lua_pop(L, (2 * argcount) + 5)`: for a negative count this sets the top instead
abbrev pop_arguments : ℤ → List Value → List Value
pop_arguments (pos n) frame = drop (2 * n + 5) frame
pop_arguments (negsuc zero) frame = drop 3 frame
pop_arguments (negsuc (suc zero)) frame = drop 1 frame
pop_arguments (negsuc (suc (suc n))) frame = set_top (2 * n) frame

-- the return types with a letter of their own
unfoldable pub return_type : String → Option JType
return_type ret =
    if str_eq ret "Z"
    then some JType.boolean_type
    else if str_eq ret "B"
    then some JType.byte_type
    else if str_eq ret "C"
    then some JType.char_type
    else if str_eq ret "S"
    then some JType.short_type
    else if str_eq ret "I"
    then some JType.int_type
    else if str_eq ret "J"
    then some JType.long_type
    else if str_eq ret "F"
    then some JType.float_type
    else if str_eq ret "D"
    then some JType.double_type
    else none

abbrev call_line : JType → ℕ
call_line JType.void_type = 368
call_line JType.object_type = 379
call_line JType.boolean_type = 391
call_line JType.byte_type = 400
call_line JType.char_type = 409
call_line JType.short_type = 418
call_line JType.int_type = 427
call_line JType.long_type = 436
call_line JType.float_type = 445
call_line JType.double_type = 454

module _ {J : Type 0} ⦃host : Host J⦄ where
  -- argument `i`, whose type is `argtype` and whose value stands at `param_num`
  unfoldable pub check_argument : (argtype : String) (i param_num : ℕ) → Cmd J JValue
  check_argument argtype i param_num =
      if str_eq argtype "V"
      then pure (JValue.l none)
      else if str_eq (first argtype) "L" || str_eq (first argtype) "["
      then (check_object param_num >>= λ p. pure (JValue.l (some p)))
      else if str_eq argtype "STR"
      then (do
        text ← check_string param_num
        p ← jni_get (host.jni.new_string_utf text)
        pure (JValue.l p))
      else if str_eq argtype "Z"
      then (check_boolean param_num >>= λ v. pure (JValue.z v))
      else if str_eq argtype "B"
      then (check_integer param_num >>= λ v. pure (JValue.b (narrow (2 ^ 8) v)))
      else if str_eq argtype "C"
      then (check_integer param_num >>= λ v. pure (JValue.c (narrow_unsigned (2 ^ 16) v)))
      else if str_eq argtype "S"
      then (check_integer param_num >>= λ v. pure (JValue.s (narrow (2 ^ 16) v)))
      else if str_eq argtype "I"
      then (check_integer param_num >>= λ v. pure (JValue.i (narrow (2 ^ 32) v)))
      else if str_eq argtype "J"
      then (check_integer param_num >>= λ v. pure (JValue.j v))
      else if str_eq argtype "F"
      then (check_number param_num >>= λ v. pure (JValue.f (host.lua.narrow_float v)))
      else if str_eq argtype "D"
      then (check_number param_num >>= λ v. pure (JValue.d v))
      else lua_interface_error (
          "Unknown argument type '"
          ++ argtype
          ++ "' for argument "
          ++ host.lua.format_d (pos i)
          ++ "\n")

  unfoldable pub arguments_loop : (i param_num n : ℕ) → Cmd J (List JValue)
  unfolding check_argument
  arguments_loop i param_num zero = pure []
  arguments_loop i param_num (suc n) = do
    argtype ← check_string param_num
    v ← check_argument argtype i (param_num + 1)
    rest ← arguments_loop (i + 1) (param_num + 2) n
    pure (v ∷ rest)

  abbrev call_a : JType → Bool → (object method_id : Ptr) → List JValue → Cmd J JValue
  call_a type is_static object method_id jargs = jni_get (
      if is_static
      then host.jni.call_static_method_a type object method_id jargs
      else host.jni.call_method_a type object method_id jargs)

  abbrev pub call_or_create :
      (method_name : String) → Bool → (object method_id : Ptr) → List JValue → Cmd J (Option Ptr)
  call_or_create method_name is_static object method_id jargs =
      if str_eq method_name "<init>"
      then jni_get (host.jni.new_object_a object method_id jargs)
      else call_a JType.object_type is_static object method_id jargs >>= λ v. pure (object_in v)

  abbrev pub call_letter :
      Option JType → (ret : String) → Bool → (object method_id : Ptr) → List JValue → Cmd J ℕ
  call_letter none ret is_static object method_id jargs =
      lua_interface_error ("Unknown return type '" ++ ret ++ "'")
  call_letter (some type) ret is_static object method_id jargs = do
    val ← call_a type is_static object method_id jargs
    exception_check "lua_java.c" (call_line type)
    push_jvalue type val
    pure 1

  -- the call, with the number of its results
  unfoldable pub call_return :
      (ret method_name : String) → Bool → (object method_id : Ptr) → List JValue → Cmd J ℕ
  call_return ret method_name is_static object method_id jargs =
      if str_eq ret "V"
      then (do
        call_a JType.void_type is_static object method_id jargs
        exception_check "lua_java.c" 368
        pure 0)
      else if str_eq (first ret) "L" || str_eq (first ret) "[" || str_eq ret "STR"
      then (do
        val ← call_or_create method_name is_static object method_id jargs
        exception_check "lua_java.c" 379
        (if str_eq ret "L" || str_eq (first ret) "[" then new_jobject val else new_string val)
        pure 1)
      else call_letter (return_type ret) ret is_static object method_id jargs

  -- Only the method's name is asked for.
  unfoldable pub lj_call_method : Cmd J ℕ
  lj_call_method = do
    object ← check_object 1
    method_id ← check_method 2
    is_static ← gets (λ w. boolean_at (arg 3 w.frame))
    ret ← check_string 4
    n ← check_integer 5
    let argcount = narrow (2 ^ 32) n
    (method_name, sig) ←
        jvmti_alloc (λ p ps. add_buffer p.0.at ps) (host.jvmti.get_method_name method_id)
    check_jvmti_error "lua_java.c" 291 "lj_call_method"
    jargs ← arguments_loop 0 6 (count_of argcount)
    (λ w. ok tt (record w { frame = pop_arguments argcount w.frame }))
    result_count ← call_return ret method_name.contents is_static object method_id jargs
    free_jvmti_refs (method_name.at ∷ [])
    pure result_count
