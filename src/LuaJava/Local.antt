-- ===== src/LuaJava/Local.antt =====
-- lua_java.c: reading a local variable of a frame.
use yellow_tree.Common.{Bool, true, false, not, String, str_eq, ◌||◌, if◌then◌else◌, ℕ, ◌^◌, ◌==◌}
use yellow_tree.Common.Int.{ℤ, pos, narrow, ◌-ℤ◌, negsuc}
use yellow_tree.Runtime.Value.{Value, JvmtiError, invalid_slot, type_mismatch, null_pointer}
use yellow_tree.Runtime.Host.{Host}
use yellow_tree.Runtime.World.{Cmd, pure, ◌>>=◌, ◌>>◌}
use yellow_tree.Runtime.Stack.{push, lua_pop, check_integer, check_string}
use yellow_tree.Runtime.Calls.{jvmti_get}
use yellow_tree.Bridge.{new_jobject}
use yellow_tree.LuaJava.{check_jvmti_error, get_current_java_thread}
use yellow_tree.LuaJava.Types.{first}

-- the errors for which nil is the answer
abbrev pub local_variable_is_nil : JvmtiError → Bool
local_variable_is_nil invalid_slot = true
local_variable_is_nil type_mismatch = true
local_variable_is_nil null_pointer = true
local_variable_is_nil _ = false

abbrev pub is_int_type : String → Bool
is_int_type type =
    str_eq type "Z" || str_eq type "B" || str_eq type "C" || str_eq type "S" || str_eq type "I"

-- an `int` as a C truth value
abbrev pub is_nonzero : ℤ → Bool
is_nonzero (pos n) = not (n == 0)
is_nonzero (negsuc n) = true

abbrev pub int_value : String → ℤ → Value
int_value type v = if str_eq type "Z" then Value.boolean (is_nonzero v) else Value.integer v

-- `depth - 1` on an `int`
abbrev pub int_pred : ℤ → ℤ
int_pred depth = narrow (2 ^ 32) (depth -ℤ pos 1)

module _ {J : Type 0} ⦃host : Host J⦄ where
  -- nil after one of the three errors; an error is raised after any other
  unfoldable pub nil_or : (line : ℕ) → Cmd J (Unit {0}) → Cmd J (Unit {0})
  nil_or line push_val w =
      if local_variable_is_nil w.lj_err
      then push Value.nil w
      else (check_jvmti_error "lua_java.c" line "lj_get_local_variable" >> push_val) w

  unfoldable pub lj_get_local_variable : Cmd J ℕ
  unfolding nil_or
  lj_get_local_variable = do
    n ← check_integer 1
    m ← check_integer 2
    type ← check_string 3
    let depth = narrow (2 ^ 32) n
    let slot = narrow (2 ^ 32) m
    lua_pop 3
    (if is_int_type type
        then (do
          thread ← get_current_java_thread
          v ← jvmti_get (host.jvmti.get_local_int thread (int_pred depth) slot)
          nil_or 172 (push (int_value type v)))
        else if str_eq type "J"
        then (do
          thread ← get_current_java_thread
          v ← jvmti_get (host.jvmti.get_local_long thread (int_pred depth) slot)
          nil_or 189 (push (Value.integer v)))
        else if str_eq type "F"
        then (do
          thread ← get_current_java_thread
          v ← jvmti_get (host.jvmti.get_local_float thread (int_pred depth) slot)
          nil_or 203 (push (Value.number (host.lua.widen v))))
        else if str_eq type "D"
        then (do
          thread ← get_current_java_thread
          v ← jvmti_get (host.jvmti.get_local_double thread (int_pred depth) slot)
          nil_or 217 (push (Value.number v)))
        else if str_eq (first type) "L" || str_eq (first type) "["
        then (do
          thread ← get_current_java_thread
          v ← jvmti_get (host.jvmti.get_local_object thread (int_pred depth) slot)
          nil_or 235 (new_jobject v))
        else push Value.nil)
    pure 1
