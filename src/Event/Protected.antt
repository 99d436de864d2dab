-- ===== src/Event/Protected.antt =====
-- Calling a Lua function from C: the stack of a new Lua thread, the function of a reference, and
-- `lua_pcall` with `lua_print_traceback` as its message handler.
use yellow_tree.Common.{
  ℕ, zero, suc, ◌-◌, Bool, false, Option, some, [], ◌∷◌, ◌++◌, List, get_elem?, str_eq,
  if◌then◌else◌,
}
use yellow_tree.Runtime.Value.{Value, Ref}
use yellow_tree.Runtime.World.{World, Outcome, Cmd, Scripts, ok, raised, aborted, undefined}
use yellow_tree.Runtime.Stack.{push, value_of_ref}

abbrev pub print_traceback : Value
print_traceback = Value.c_function "lua_print_traceback"

abbrev pub is_print_traceback : Option Value → Bool
is_print_traceback (some (Value.c_function s)) = str_eq s "lua_print_traceback"
is_print_traceback _ = false

module _ {J : Type 0} ⦃scripts : Scripts J⦄ where
  -- Takes `n` arguments off the stack, the last one first, and calls the function below them.
  abbrev pub call_below :
      (n results : ℕ) → (args : List Value) → List Value → World J → Outcome J (Unit {0})
  call_below (suc n) results args (v ∷ rest) w = call_below n results (v ∷ args) rest w
  call_below zero results args (f ∷ rest) w =
      let (values, w') = scripts.call f args results (record w { frame = [] }) in
      ok tt (record w' { frame = values ++ rest })
  call_below n results args [] w = undefined w

  -- `lua_pcall(L, n, results, -handler)`; the message handler has to be `lua_print_traceback`
  abbrev pub lua_pcall : (n results handler : ℕ) → Cmd J (Unit {0})
  lua_pcall n results handler w =
      if is_print_traceback (get_elem? w.frame (handler - 1))
      then call_below n results [] w.frame w
      else undefined w

module _ {J : Type 0} where
  -- Runs a command on the empty stack of a new Lua thread; the stack of `lj_L` is as before.
  abbrev pub restore : List Value → Outcome J (Unit {0}) → Outcome J (Unit {0})
  restore frame (ok a w) = ok a (record w { frame = frame })
  restore frame (raised v w) = raised v (record w { frame = frame })
  restore frame (aborted w) = aborted (record w { frame = frame })
  restore frame (undefined w) = undefined (record w { frame = frame })

  abbrev pub on_new_stack : Cmd J (Unit {0}) → Cmd J (Unit {0})
  on_new_stack m w = restore w.frame (m (record w { frame = [] }))

  -- `lua_rawgeti(L, LUA_REGISTRYINDEX, ref)`
  abbrev pub push_ref : Ref → Cmd J (Unit {0})
  push_ref r w = push (value_of_ref r w.registry) w
