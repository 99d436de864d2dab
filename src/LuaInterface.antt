-- ===== src/LuaInterface.antt =====
-- lua_interface.c, the part that reports errors: the traceback, and raising a Lua error with a
-- message that is formatted into a buffer of 500 bytes.
pub mod Start
pub mod Init
pub mod Ready
pub mod Printing
use Prim.Native.String.{len}
use yellow_tree.Common.{
  ℕ, Bool, true, false, not, Option, none, some, List, [], ◌∷◌, String, leb, if◌then◌else◌,
}
use yellow_tree.Common.Int.{pos}
use yellow_tree.Runtime.Value.{Value, Fields, Key, get}
use yellow_tree.Runtime.Globals.{nil_if_none}
use yellow_tree.Runtime.Host.{Host}
use yellow_tree.Runtime.World.{Cmd, ok, undefined, pure, ◌>>◌}
use yellow_tree.Runtime.Stack.{arg, push, lua_pop, lua_error}

-- `lua_isstring`: a text or a number
abbrev pub is_string : Option Value → Bool
is_string (some (Value.string _)) = true
is_string (some (Value.integer _)) = true
is_string (some (Value.number _)) = true
is_string _ = false

abbrev value_or_nil : Option Value → Value
value_or_nil none = Value.nil
value_or_nil (some v) = v

abbrev pub is_table : Value → Bool
is_table (Value.table _) = true
is_table _ = false

abbrev pub is_function : Value → Bool
is_function (Value.function _) = true
is_function (Value.c_function _) = true
is_function _ = false

-- The top of the stack; nil on an empty one.
abbrev pub top : List Value → Value
top [] = Value.nil
top (v ∷ _) = v

-- `lua_getglobal(L, "debug")`, and `lua_getfield(L, -1, "traceback")` on a table.
abbrev pub debug_in : Fields → Value
debug_in globals = nil_if_none (get (Key.name "debug") globals)

abbrev pub traceback_in : Value → Value
traceback_in (Value.table t) = nil_if_none (get (Key.name "traceback") t)
traceback_in _ = Value.nil

module _ {J : Type 0} ⦃host : Host J⦄ where
  -- It looks at index 1, which is the message when Lua calls it as a message handler.
  unfoldable pub traceback : Cmd J ℕ
  traceback w =
      if not (is_string (arg 1 w.frame))
      then ok 1 w
      else if not (is_table (debug_in w.globals))
      then (push (debug_in w.globals) >> lua_pop 1 >> pure 1) w
      else if not (is_function (traceback_in (debug_in w.globals)))
      then (push (debug_in w.globals)
            >> push (traceback_in (debug_in w.globals))
            >> lua_pop 2
            >> pure 1)
          w
      else (do
        push (debug_in w.globals)
        push (traceback_in (debug_in w.globals))
        push (value_or_nil (arg 1 w.frame))
        push (Value.integer (pos 2))
        lua_pop 3
        push (
            host.lua.call_debug_traceback (traceback_in (debug_in w.globals))
              (value_or_nil (arg 1 w.frame)) (pos 2))
        pure 1)
          w

  abbrev pub raise_top : {A : Type 0} → Cmd J A
  raise_top w = lua_error (top w.frame) w

  -- Both `lua_pushstring(msg)` and the result of `traceback` stay on the stack; `lua_error` takes
  -- the top. `vsprintf` writes the text and a final zero into `msg[500]`.
  unfoldable pub lua_interface_error : {A : Type 0} → String → Cmd J A
  unfolding traceback
  lua_interface_error msg w =
      if leb 500 (len msg)
      then undefined w
      else (do push (Value.string msg); traceback; raise_top) w
