-- ===== src/Runtime/Globals.antt =====
-- The global variables of a Lua state, and C functions kept in them.
use yellow_tree.Common.{Bool, false, ◌||◌, List, [], ◌∷◌, Option, none, some, String, str_eq}
use yellow_tree.Runtime.Value.{Value, Fields, Key, put, get}
use yellow_tree.Runtime.World.{World, Outcome, Cmd, ok, raised, aborted, undefined, ◌>>◌}
use yellow_tree.Runtime.Stack.{push}

abbrev pub nil_if_none : Option Value → Value
nil_if_none none = Value.nil
nil_if_none (some v) = v

module _ {J : Type 0} where
  abbrev pub lua_getglobal : String → Cmd J (Unit {0})
  lua_getglobal s w = push (nil_if_none (get (Key.name s) w.globals)) w

  abbrev set_global_in : String → List Value → World J → Outcome J (Unit {0})
  set_global_in s [] w = undefined w
  set_global_in s (v ∷ rest) w =
      ok tt (record w { frame = rest; globals = put (Key.name s) v w.globals })

  abbrev pub lua_setglobal : String → Cmd J (Unit {0})
  lua_setglobal s w = set_global_in s w.frame w

  -- The C function goes by its own name in the source.
  abbrev pub lua_register : (name function : String) → Cmd J (Unit {0})
  lua_register name function = push (Value.c_function function) >> lua_setglobal name

  -- A Lua error outside every protected call: Lua calls the panic function, which prints, and stops
  -- the process.
  abbrev at_panic : {A : Type 0} → Outcome J A → Outcome J A
  at_panic (raised v w) = aborted (record w { printed = "PANIC: unprotected error\n" ∷ w.printed })
  at_panic o = o

  abbrev pub unprotected : {A : Type 0} → Cmd J A → Cmd J A
  unprotected m w = at_panic (m w)

-- The globals after functions are registered in order, each under its own name.
abbrev pub register_all : List String → Fields → Fields
register_all [] t = t
register_all (n ∷ ns) t = register_all ns (put (Key.name n) (Value.c_function n) t)

abbrev pub is_among : String → List String → Bool
is_among s [] = false
is_among s (n ∷ ns) = str_eq s n || is_among s ns
