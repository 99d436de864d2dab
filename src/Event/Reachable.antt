-- ===== src/Event/Reachable.antt =====
-- Every state that the agent reaches from its start by setting and clearing callbacks, whatever
-- happens between: the relation, and the invariant by induction on it.
use yellow_tree.Common.{refl, some, none, false, Option, arith}
use yellow_tree.Runtime.Value.{EventCallbacks, Handler, Ref, no_ref, is_no_ref}
use yellow_tree.Runtime.World.{CallbackRefs}
use yellow_tree.Event.{read_member, read_ref}
use yellow_tree.Event.Names.{
  Callback, breakpoint, method_entry, method_exit, single_step, exception_throw, field_access,
  field_modification, member_of, handler_of, ref_of,
}
use yellow_tree.Event.Wiring.{IsWired, Wired}
use yellow_tree.Common.{List, ◌≡◌}
use yellow_tree.Runtime.Value.{Value}
use yellow_tree.Runtime.Host.{Host}
use yellow_tree.Runtime.World.{World, Outcome, ok, raised, enter}
use yellow_tree.Runtime.After.{After, returns, raises, aborts, faults}
use yellow_tree.Event.{lj_init_jvmti_event, loaded_callbacks}
use yellow_tree.Event.Registry.{lj_set_jvmti_callback, lj_clear_jvmti_callback}
use yellow_tree.Event.Wiring.{
  Wiring, lj_init_jvmti_event-IsWired, lj_set_jvmti_callback-IsWired,
  lj_clear_jvmti_callback-IsWired,
}

-- The process runs on after a return and after a Lua error, from the state that was left.
pub data Leaves {J A : Type 0} : Outcome J A → World J → Type 0 where
  returned : {a : A} {w : World J} → Leaves (ok a w) w
  threw : {v : Value} {w : World J} → Leaves (raised v w) w

After-Leaves :
    {J A : Type 0} {P : World J → Type 0} {o : Outcome J A} {w : World J}
    → After P o
    → Leaves o w
    → P w
After-Leaves (returns h) returned = h
After-Leaves (raises h) threw = h
After-Leaves (aborts h) l = elim l [ ]
After-Leaves (faults h) l = elim l [ ]

row-set :
    (k : Handler) (o : Option Handler) (r : Ref) (h : Handler)
    → Wired k o r
    → o ≡ some h
    → (h ≡ k) × (is_no_ref r ≡ false)
row-set k none r h w e = absurd (ground arith)
row-set k (some g) no_ref h (p, q) e = absurd (q refl)
row-set k (some g) _ h (p, q) e = (ground arith, refl)

wired-set :
    {t : EventCallbacks} {refs : CallbackRefs} (c : Callback) (h : Handler)
    → IsWired t refs
    → read_member (member_of c) t ≡ some h
    → (h ≡ handler_of c) × (is_no_ref (read_ref (ref_of c) refs) ≡ false)
wired-set breakpoint h w e = row-set _ _ _ h w.at_breakpoint e
wired-set method_entry h w e = row-set _ _ _ h w.at_method_entry e
wired-set method_exit h w e = row-set _ _ _ h w.at_method_exit e
wired-set single_step h w e = row-set _ _ _ h w.at_single_step e
wired-set exception_throw h w e = row-set _ _ _ h w.at_exception e
wired-set field_access h w e = row-set _ _ _ h w.at_field_access e
wired-set field_modification h w e = row-set _ _ _ h w.at_field_modification e

module _ {J : Type 0} ⦃host : Host J⦄ where
  -- `elsewhere` is all that does not write the two tables: the other C functions, the JVM, and Lua.
  pub data IsReachable : World J → Type 0 where
    initially :
        (w v : World J)
        → w.jvmti_callbacks ≡ loaded_callbacks
        → Leaves (lj_init_jvmti_event w) v
        → IsReachable v
    sets :
        (args : List Value) (w v : World J)
        → IsReachable w
        → Leaves (lj_set_jvmti_callback (enter args w)) v
        → IsReachable v
    clears :
        (args : List Value) (w v : World J)
        → IsReachable w
        → Leaves (lj_clear_jvmti_callback (enter args w)) v
        → IsReachable v
    elsewhere :
        (w v : World J)
        → IsReachable w
        → v.jvmti_callbacks ≡ w.jvmti_callbacks
        → v.callback_refs ≡ w.callback_refs
        → IsReachable v

  -- In every state reached from the start by setting and clearing callbacks with any arguments,
  -- whether the calls return or raise, with anything between that leaves the two tables alone, the
  -- member of the agent's table jvmti_callbacks for one of the seven callbacks is set just where
  -- the Lua reference of that callback is, and then to the C function of that callback. This is
  -- the table that is passed to SetEventCallbacks; that JVMTI has taken it over is not stated.
  pub IsReachable-Wiring : {w : World J} → IsReachable w → Wiring w
  IsReachable-Wiring (initially w v e l) = After-Leaves (lj_init_jvmti_event-IsWired w e) l
  IsReachable-Wiring (sets args w v r l) =
      After-Leaves (lj_set_jvmti_callback-IsWired.at (enter args w) (IsReachable-Wiring r)) l
  IsReachable-Wiring (clears args w v r l) =
      After-Leaves (lj_clear_jvmti_callback-IsWired.at (enter args w) (IsReachable-Wiring r)) l
  IsReachable-Wiring (elsewhere w v r t s) = rw (t, s) (IsReachable-Wiring r)

  -- In every reachable state, where the agent's table holds a C function for one of the seven
  -- callbacks, it is the one of that callback, and that finds the reference of a Lua function.
  pub IsReachable-finds_function :
      {w : World J} (c : Callback) (h : Handler)
      → IsReachable w
      → read_member (member_of c) w.jvmti_callbacks ≡ some h
      → (h ≡ handler_of c) × (is_no_ref (read_ref (ref_of c) w.callback_refs) ≡ false)
  IsReachable-finds_function {w} c h r e = wired-set c h (IsReachable-Wiring r) e
