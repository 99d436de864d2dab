-- ===== src/LuaInterface/Printing.antt =====
-- What `lua_print_traceback` does as a message handler, which Lua calls with the error's value alone.
use yellow_tree.Common.{ℕ, Option, none, some, [], ◌∷◌, String, ◌≡◌, refl, false, true}
use yellow_tree.Common.Int.{pos}
use yellow_tree.Runtime.Value.{Value}
use yellow_tree.Runtime.Host.{Host}
use yellow_tree.Runtime.World.{World, ok, undefined, enter, and_then, pure, ◌>>◌}
use yellow_tree.Runtime.Stack.{string_of}
use yellow_tree.LuaInterface.{debug_in, traceback_in, traceback, is_string, is_table, is_function}
use yellow_tree.LuaInterface.Init.{print_text, pop_two, lua_print_traceback}
use Prim.Native.String.{◌++◌}

module _ {J : Type 0} ⦃host : Host J⦄ where
  lua_print_traceback-prints :
      (message text : String) (w : World J)
      → is_table (debug_in w.globals) ≡ true
      → is_function (traceback_in (debug_in w.globals)) ≡ true
      → host.lua.call_debug_traceback
          (traceback_in (debug_in w.globals))
          (Value.string message)
          (pos 2)
        ≡ Value.string text
      → lua_print_traceback (enter (Value.string message ∷ []) w)
        ≡ ok 0 (record w {
          frame = Value.string message ∷ [];
          printed = ("<lua_print_traceback> " ++ text ++ "\n") ∷ w.printed;
        })
  unfolding lua_print_traceback traceback
  lua_print_traceback-prints message text w debug field answer = rw (debug, field, answer) refl

  underflow :
      (o : Option String) (v : Value) (w : World J)
      → (u : World J) × (and_then {B = ℕ} (print_text o (enter (v ∷ []) w)) (λ _. pop_two >> pure 0)
          ≡ undefined u)
  underflow none v w = (_, refl)
  underflow (some s) v w = (_, refl)

  lua_print_traceback-underflow :
      (v : Value) (w : World J)
      → is_string (some v) ≡ false
      → (u : World J) × (lua_print_traceback (enter (v ∷ []) w) ≡ undefined u)
  unfolding lua_print_traceback traceback
  lua_print_traceback-underflow v w h = rw h (underflow (string_of host.lua.to_string (some v)) v w)

  -- With Lua's debug library loaded, lua_print_traceback as a message handler prints the traceback
  -- of a message that is a text and leaves the message alone on the stack; for an error value that
  -- is neither a text nor a number it pops two values where there is one, and has no defined
  -- behaviour.
  pub lua_print_traceback-branches :
      (w : World J)
      → is_table (debug_in w.globals) ≡ true
      → is_function (traceback_in (debug_in w.globals)) ≡ true
      → ((message text : String)
          → host.lua.call_debug_traceback
              (traceback_in (debug_in w.globals))
              (Value.string message)
              (pos 2)
            ≡ Value.string text
          → lua_print_traceback (enter (Value.string message ∷ []) w)
            ≡ ok 0 (record w {
              frame = Value.string message ∷ [];
              printed = ("<lua_print_traceback> " ++ text ++ "\n") ∷ w.printed;
            }))
        × ((v : Value)
            → is_string (some v) ≡ false
            → (u : World J) × (lua_print_traceback (enter (v ∷ []) w) ≡ undefined u))
  lua_print_traceback-branches w debug field = (
    λ message text answer. lua_print_traceback-prints message text w debug field answer,
    λ v h. lua_print_traceback-underflow v w h,
  )
