-- ===== src/Runtime/Host.antt =====
-- All that the agent calls and does not implement, in one interface: JVMTI, JNI, and what Lua and
-- the C library compute. It is an instance argument of the model.
use yellow_tree.Common.{ℕ, List, Option, String}
use yellow_tree.Common.Int.{ℤ}
use yellow_tree.Runtime.Value.{Ptr, Value}
use yellow_tree.Runtime.Jvmti.{Jvmti}
use yellow_tree.Runtime.Jni.{Jni}

pub record Lua (J : Type 0) : Type 0 where
  -- `lua_tointegerx`, `lua_tonumberx` and `lua_tolstring` on a value that is of another type;
  -- `none` where Lua does not convert
  pub to_integer : Value → Option ℤ
  pub to_number : Value → Option ℕ
  pub to_string : Value → Option String
  -- `luaL_checkudata` and the others raise a message of this kind: argument, and what was expected
  pub argument_error : (argument : ℕ) (expected : String) → String
  -- what the function `debug.traceback`, which may have been replaced, answers for a message and a
  -- level
  pub call_debug_traceback : (traceback : Value) → Value → ℤ → Value
  -- the key under which `luaL_ref` keeps a value, and what `luaL_error` makes of a message
  pub fresh_ref : List (ℕ × Value) → ℕ
  pub with_position : String → String
  -- the double that stands for a float, and the float that a double is narrowed to, by their bits
  pub widen : ℕ → ℕ
  pub narrow_float : ℕ → ℕ
  -- an `int` variable that is read before it is written
  pub indeterminate : ℤ
  -- `%d` and `%p` of the C library
  pub format_d : ℤ → String
  pub format_p : Ptr → String

pub record Host (J : Type 0) : Type 0 where
  pub jvmti : Jvmti J
  pub jni : Jni J
  pub lua : Lua J
