-- ===== src/LuaInterface/Init.antt =====
-- lua_interface.c: `lua_interface_init`, which makes the Lua state, the C functions and the global
-- `thread_resume_monitor`, and `lua_print_traceback`.
use Prim.Native.String.{◌++◌}
use yellow_tree.Common.{
  ℕ, zero, suc, ◌-◌, Bool, Option, none, some, List, [], ◌∷◌, String, if◌then◌else◌, leb, length,
}
use yellow_tree.Runtime.Value.{Ptr, Value, Fields, Key, get}
use yellow_tree.Runtime.Host.{Host}
use yellow_tree.Runtime.World.{World, Cmd, ok, aborted, undefined, ◌>>◌, print, pure}
use yellow_tree.Runtime.Stack.{push, lua_pop, string_of, lua_error_message}
use yellow_tree.Runtime.Globals.{lua_getglobal, lua_setglobal, unprotected, nil_if_none}
use yellow_tree.Bridge.{new_jmonitor}
use yellow_tree.LuaInterface.{traceback, top}
use yellow_tree.LuaJava.Init.{lj_init}

-- How a protected call with one result ends.
pub data Called : Type 0 where
  answered : Value → Called
  failed : Value → Called

-- What `lua_interface_init` needs of Lua: memory for a state, the globals of the standard libraries,
-- running a chunk, and calling a Lua function. The last two are protected calls, with the error's
-- value when they fail.
pub record Interpreter (J : Type 0) : Type 0 where
  pub new_state : World J → Bool
  pub open_libs : Fields
  pub run_chunk : String → World J → Option Value × World J
  pub call_function : Value → List Value → World J → Called × World J

abbrev remove_nth : ℕ → List Value → List Value
remove_nth n [] = []
remove_nth zero (v ∷ vs) = vs
remove_nth (suc n) (v ∷ vs) = v ∷ remove_nth n vs

-- What the C library prints for a null pointer.
abbrev null_text : Option String → String
null_text none = "(null)"
null_text (some text) = text

module _ {J : Type 0} where
  -- `abort()`
  abbrev pub abort : {A : Type 0} → Cmd J A
  abort w = aborted w

  -- `lua_remove(L, -n)`
  abbrev pub lua_remove : ℕ → Cmd J (Unit {0})
  lua_remove n w = ok tt (record w { frame = remove_nth (n - 1) w.frame })

module _ {J : Type 0} ⦃host : Host J⦄ where
  -- `fprintf` with the result of `lua_tostring`; for a null pointer the C library prints `(null)`.
  abbrev pub print_text : Option String → Cmd J (Unit {0})
  print_text none = print "<lua_print_traceback> (null)\n"
  print_text (some stack) = print ("<lua_print_traceback> " ++ stack ++ "\n")

  -- `lua_pop(L, 2)`; with fewer values on the stack it is outside the C API.
  abbrev pub pop_two : Cmd J (Unit {0})
  pop_two w = if leb 2 (length w.frame) then lua_pop 2 w else undefined w

  -- It pops two values: the traceback, and what it was given.
  unfoldable pub lua_print_traceback : Cmd J ℕ
  unfolding traceback
  lua_print_traceback = do
    traceback
    (λ w. print_text (string_of host.lua.to_string (some (top w.frame))) w)
    pop_two
    pure 0

  -- `lua_getfield(L, -1, k)` on the value at the top, which Lua can index if it is a table
  abbrev field_at_top : String → List Value → Cmd J (Unit {0})
  field_at_top k (Value.table t ∷ rest) = push (nil_if_none (get (Key.name k) t))
  field_at_top k _ = lua_error_message "attempt to index a value"

  abbrev pub lua_getfield : String → Cmd J (Unit {0})
  lua_getfield k w = field_at_top k w.frame w

  module _ (lua : Interpreter J) where
    abbrev pub loaded_or_stop : Option Value → Cmd J (Unit {0})
    loaded_or_stop none = pure tt
    loaded_or_stop (some message) = do
      push message
      print (
          "Failed to load debuglib.lua: "
          ++ null_text (string_of host.lua.to_string (some message))
          ++ "\n")
      abort

    -- The chunk leaves the stack as it was.
    abbrev load_debuglib : Cmd J (Unit {0})
    load_debuglib w =
        let (failure, v) = lua.run_chunk "require('debuglib')" w in
        loaded_or_stop failure (record v { frame = w.frame })

    abbrev pub created_or_stop : Called → Cmd J (Unit {0})
    created_or_stop (answered v) = push v
    created_or_stop (failed message) = do
      push message
      print (
          "Failed to initialize: "
          ++ null_text (string_of host.lua.to_string (some message))
          ++ "\n")
      abort

    -- `lua_pcall(L, 1, 1, -3)` takes the function and its argument off the stack.
    abbrev call_in : List Value → Cmd J (Unit {0})
    call_in (v ∷ f ∷ rest) w =
        let (answer, u) = lua.call_function f (v ∷ []) w in
        created_or_stop answer (record u { frame = rest })
    call_in _ w = undefined w

    abbrev call_create : Cmd J (Unit {0})
    call_create w = call_in w.frame w

    -- The function `create` is on the stack, above the table that it came from and the handler.
    unfoldable pub name_monitor : Ptr → Cmd J (Unit {0})
    unfolding new_jmonitor
    name_monitor thread_resume_monitor = do
      lua_remove 2
      new_jmonitor thread_resume_monitor "yellow_tree_thread_resume_monitor"
      call_create
      lua_remove 2
      lua_setglobal "thread_resume_monitor"

    unfoldable pub create_monitor : Ptr → Cmd J (Unit {0})
    create_monitor thread_resume_monitor = do
      push (Value.c_function "traceback")
      lua_getglobal "jmonitor"
      unprotected (lua_getfield "create")
      name_monitor thread_resume_monitor

    -- After `lj_init`: the debugger is loaded, and gets the monitor for the thread that waits.
    unfoldable pub connect : Ptr → Cmd J (Unit {0})
    connect thread_resume_monitor = do
      push (Value.c_function "traceback")
      load_debuglib
      lua_remove 1
      create_monitor thread_resume_monitor

    unfoldable pub lua_interface_init : Ptr → Cmd J (Unit {0})
    unfolding connect
    lua_interface_init thread_resume_monitor w =
        if lua.new_state w
        then (unprotected lj_init >> connect thread_resume_monitor)
            (record w { frame = []; registry = []; globals = lua.open_libs })
        else (print "Failed to initialize Lua" >> abort) w
