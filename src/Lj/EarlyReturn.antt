-- ===== src/Lj/EarlyReturn.antt =====
-- lua_java/lj_force_early_return.c: making a method of a thread return at once.
use yellow_tree.Common.{ℕ, false, Option, none, some, if◌then◌else◌, ◌^◌}
use yellow_tree.Common.Int.{ℤ, pos, narrow}
use yellow_tree.Runtime.Value.{Ptr, Value}
use yellow_tree.Runtime.Host.{Host}
use yellow_tree.Runtime.World.{Cmd, ok, pure, ◌>>=◌, ◌>>◌, gets, assert}
use yellow_tree.Runtime.Stack.{arg, lua_pop, check_object, check_integer}
use yellow_tree.Runtime.Calls.{jvmti_call}
use yellow_tree.LuaJava.{check_jvmti_error}

module _ {J : Type 0} ⦃host : Host J⦄ where
  -- `lua_type(L, 2) != LUA_TNIL`: a missing argument is not nil
  abbrev pub object_or_null : Option Value → Cmd J (Option Ptr)
  object_or_null (some Value.nil) w = ok none w
  object_or_null v w = (check_object 2 >>= λ p. pure (some p)) w

  unfoldable pub lj_force_early_return_object : Cmd J ℕ
  lj_force_early_return_object = do
    thread ← check_object 1
    ret_val ← gets (λ w. w.frame) >>= λ frame. object_or_null (arg 2 frame)
    jvmti_call (host.jvmti.force_early_return_object thread ret_val)
    check_jvmti_error "lua_java/lj_force_early_return.c" 13 "lj_force_early_return_object"
    lua_pop 2
    pure 0

  -- a boolean is 0 or 1; an integer is narrowed to `int`
  abbrev pub boolean_or_int : Option Value → Cmd J ℤ
  boolean_or_int (some (Value.boolean b)) w = ok (if b then pos 1 else pos 0) w
  boolean_or_int v w = (check_integer 2 >>= λ n. pure (narrow (2 ^ 32) n)) w

  unfoldable pub lj_force_early_return_int : Cmd J ℕ
  lj_force_early_return_int = do
    thread ← check_object 1
    retval ← gets (λ w. w.frame) >>= λ frame. boolean_or_int (arg 2 frame)
    jvmti_call (host.jvmti.force_early_return_int thread retval)
    check_jvmti_error "lua_java/lj_force_early_return.c" 29 "lj_force_early_return_int"
    lua_pop 2
    pure 0

  unfoldable pub lj_force_early_return_long : Cmd J ℕ
  lj_force_early_return_long = assert false >> pure 0

  unfoldable pub lj_force_early_return_float : Cmd J ℕ
  lj_force_early_return_float = assert false >> pure 0

  unfoldable pub lj_force_early_return_double : Cmd J ℕ
  lj_force_early_return_double = assert false >> pure 0

  unfoldable pub lj_force_early_return_void : Cmd J ℕ
  lj_force_early_return_void = do
    thread ← check_object 1
    lua_pop 1
    jvmti_call (host.jvmti.force_early_return_void thread)
    check_jvmti_error "lua_java/lj_force_early_return.c" 57 "lj_force_early_return_void"
    pure 0
