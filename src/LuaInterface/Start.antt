-- ===== src/LuaInterface/Start.antt =====
-- lua_interface.c: `lua_start_cmd`, which runs the command interpreter on a new Lua stack.
use Prim.Native.String.{◌++◌}
use yellow_tree.Common.{
  ℕ, zero, suc, Bool, false, Option, none, some, List, [], ◌∷◌, String, length, ◌==◌, if◌then◌else◌,
  ◌≡◌, refl,
}
use yellow_tree.Runtime.Value.{Value, to_boolean}
use yellow_tree.Runtime.World.{World, Cmd, ok, undefined, pure, ◌>>◌, print, and_then}
use yellow_tree.Runtime.Stack.{arg, push, lua_pop}

abbrev boolean_at : Option Value → Bool
boolean_at none = to_boolean Value.nil
boolean_at (some v) = to_boolean v

-- The lines printed with the failure, if there was one, put first.
abbrev pub noted : (what : String) → Option String → List String → List String
noted what none out = out
noted what (some message) out = (what ++ message ++ "\n") ∷ out

-- A protected call of a global Lua function with no results: `none` when it returns, otherwise the
-- error's text; and the state that it leaves. It is Lua code of the debugger, so a parameter.
module _ {J : Type 0} (call_global : String → List Value → World J → Option String × World J) where
  abbrev report : (what : String) → Option String → Cmd J (Unit {0})
  report what none = pure tt
  report what (some message) = do
    push (Value.string message)
    print (what ++ message ++ "\n")
    lua_pop 1

  -- The function and its arguments are taken off the stack; what lies below is as before.
  abbrev protected : (what name : String) → List Value → Cmd J (Unit {0})
  protected what name args w =
      let (failure, v) = call_global name args w in
      report what failure (record v { frame = w.frame })

  -- Whether the loop is left: `lua_gettop(L) == 1` and the value there is true.
  abbrev is_finished : List Value → Bool
  is_finished frame = if length frame == 1 then boolean_at (arg 1 frame) else false

  -- `while (1)`, on fuel
  unfoldable pub command_loop : ℕ → Cmd J (Unit {0})
  command_loop zero w = undefined w
  command_loop (suc fuel) w =
      let rest = command_loop fuel in
      and_then (protected "Error during command interpreter: " "start_cmd" [] w)
        (λ _ v. if is_finished v.frame then ok tt v else rest v)

  unfoldable pub lua_start_cmd : (fuel : ℕ) → String → Cmd J (Unit {0})
  lua_start_cmd fuel opts w =
      (do
        protected "Error setting options: " "setopts" (Value.string opts ∷ [])
        push (Value.c_function "traceback")
        command_loop fuel)
        (record w { frame = [] })

  protected-noted :
      (what name : String) (args : List Value) (f : Option String) (w v : World J)
      → call_global name args w ≡ (f, v)
      → protected what name args w
        ≡ ok tt (record v { frame = w.frame; printed = noted what f v.printed })
  protected-noted what name args none w v h = rw h refl
  protected-noted what name args (some message) w v h = rw h refl

  -- lua_start_cmd calls setopts once and start_cmd once: whether they return or fail and whatever
  -- start_cmd would return, the loop is left after one call, with one unit of fuel or more, since
  -- the value found on the stack is the message handler.
  pub lua_start_cmd-once :
      (fuel : ℕ) (opts : String) (f g : Option String) (w u left : World J)
      → call_global "setopts" (Value.string opts ∷ []) (record w { frame = [] }) ≡ (f, u)
      → call_global "start_cmd" [] (record u {
        frame = Value.c_function "traceback" ∷ [];
        printed = noted "Error setting options: " f u.printed;
      })
        ≡ (g, left)
      → lua_start_cmd (suc fuel) opts w
        ≡ ok tt (record left {
          frame = Value.c_function "traceback" ∷ [];
          printed = noted "Error during command interpreter: " g left.printed;
        })
  unfolding lua_start_cmd command_loop
  lua_start_cmd-once fuel opts f g w u left set started =
      rw
        (protected-noted "Error setting options: " "setopts" (Value.string opts ∷ []) f
          (record w { frame = [] }) u set)
        (rw
          (protected-noted "Error during command interpreter: " "start_cmd" [] g
            (record u {
              frame = Value.c_function "traceback" ∷ [];
              printed = noted "Error setting options: " f u.printed;
            })
            left started)
          refl)
