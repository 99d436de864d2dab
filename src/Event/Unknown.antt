-- ===== src/Event/Unknown.antt =====
-- A name that is none of the callbacks.
use Prim.Native.String.{◌++◌}
use yellow_tree.Common.{ℕ, false, none, String, ◌≡◌, ◌≢◌, refl, arith, [], ◌∷◌, ◌==◌}
use yellow_tree.Runtime.Value.{Value, error_none}
use yellow_tree.Runtime.Host.{Host}
use yellow_tree.Runtime.World.{World, raised, undefined, enter}
use yellow_tree.Event.{get_jvmti_callback_pointers, no_pointers}
use yellow_tree.Event.Registry.{lj_set_jvmti_callback, lj_clear_jvmti_callback, switched_event}
use yellow_tree.LuaJava.{check_jvmti_error}

-- A name that `get_jvmti_callback_pointers` does not know, `exception_catch` among them.
abbrev pub IsUnknown : String → Type 0
IsUnknown s = get_jvmti_callback_pointers s ≡ no_pointers

switched_event-unknown : (s : String) → IsUnknown s → switched_event s ≡ none
unfolding get_jvmti_callback_pointers switched_event
switched_event-unknown s h = ground arith

pub exception_catch-IsUnknown : IsUnknown "exception_catch"
unfolding get_jvmti_callback_pointers
exception_catch-IsUnknown = refl

module _ {J : Type 0} ⦃host : Host J⦄ where
  -- Setting a name that is no callback, with a reference other than 0, raises an error after the
  -- function was kept in the registry, where nothing refers to it; the tables are as they were.
  pub set_unknown :
      (s : String) (f : ℕ) (w : World J)
      → IsUnknown s
      → host.lua.fresh_ref w.registry ≢ 0
      → lj_set_jvmti_callback (enter (Value.function f ∷ Value.string s ∷ []) w)
        ≡ raised
            (Value.string (host.lua.with_position ("Unknown or unmapped callback '" ++ s ++ "'\n")))
            (record w {
              frame = [];
              lj_err = error_none;
              registry = (host.lua.fresh_ref w.registry, Value.function f) ∷ w.registry;
            })
  unfolding lj_set_jvmti_callback check_jvmti_error
  set_unknown s f w u ne =
      let z : (host.lua.fresh_ref w.registry == 0) ≡ false = ground arith in
      rw (z, switched_event-unknown s u) (rw u refl)

  -- Clearing a name that is no callback has no defined behaviour: it writes through a null
  -- pointer.
  pub clear_unknown :
      (s : String) (w : World J)
      → IsUnknown s
      → lj_clear_jvmti_callback (enter (Value.string s ∷ []) w)
        ≡ undefined (record w { frame = []; lj_err = error_none })
  unfolding lj_clear_jvmti_callback check_jvmti_error
  clear_unknown s w u = rw (switched_event-unknown s u) (rw u refl)
