-- ===== src/Tests/Events.antt =====
-- The theorems on events, applied to the small JVM.
use yellow_tree.Event.Dispatch.{
  disable_events_before_callback_handling, enable_events_after_callback_handling,
}
use yellow_tree.Event.Unknown.{exception_catch-IsUnknown, set_unknown, clear_unknown}
use yellow_tree.Event.Wiring.{Wiring}
use yellow_tree.Event.Reachable.{IsReachable, initially, returned, IsReachable-Wiring, sets}
use yellow_tree.Common.{true, false, some, [], ◌∷◌, ◌≡◌, ◌≢◌, refl, arith}
use yellow_tree.Common.Int.{pos}
use yellow_tree.Runtime.Value.{Ptr, Value, EventMode, EventType, ref, is_no_ref}
use yellow_tree.Runtime.World.{World, enter, ok, raised, undefined}
use yellow_tree.Event.Names
use yellow_tree.Event.{lj_init_jvmti_event}
use yellow_tree.Event.Setting.{after_set, set_lem, Accepts}
use yellow_tree.Event.Rows.{set_then_clear, clear-set}
use yellow_tree.Event.Modes.{ModeLaws, disable_modes, enable_modes, method_exit_lost, is_enable}
use yellow_tree.Event.Delivery
use yellow_tree.Event.Delivery.{deliver, deliver-set, deliver-unset, quiet}
use yellow_tree.Event.Registry.{lj_set_jvmti_callback, lj_clear_jvmti_callback}
use yellow_tree.Tests.Demo.{Jvm, demo_host, demo_scripts, start, set_mode, event_number}

abbrev pub demo_accepts : Accepts demo_host
demo_accepts = record { modes = λ m e t j. refl; tables = λ t j. refl }

set_mode_self :
    (m : EventMode) (e : EventType) (t : Ptr) (j : Jvm)
    → (set_mode m e (some t) j).0 e t ≡ is_enable m
set_mode_self m e t j = ground arith

event_number_ne : (e d : EventType) → e ≢ d → event_number e ≢ event_number d
event_number_ne EventType.vm_init d ne = ground arith
event_number_ne _ d ne = ground arith

set_mode_ne :
    (m : EventMode) (e d : EventType) (t u : Ptr) (j : Jvm)
    → e ≢ d
    → (set_mode m e (some t) j).0 d u ≡ j.0 d u
set_mode_ne m e d t u j ne = ground (arith, event_number_ne e d ne)

abbrev demo_mode_laws : ModeLaws demo_host
demo_mode_laws = record {
  is_enabled = λ j e t. j.0 e t;
  set_mode = set_mode_self;
  keep_mode = set_mode_ne;
}

-- `breakpoint` and `single_step` are set by references 5 and 6.
abbrev stepping : World Jvm
stepping = record start {
  callback_refs = record start.callback_refs {
    cb_breakpoint_ref = ref 5;
    cb_single_step_ref = ref 6;
    cb_method_exit_ref = ref 7;
  };
  registry = (7, Value.function 17) ∷ (6, Value.function 16) ∷ (5, Value.function 15) ∷ [];
}

clear-set_example :
    (v : World Jvm) × (set_then_clear Names.field_access 9 start ≡ ok 0 v)
    × (v.jvmti_callbacks ≡ start.jvmti_callbacks)
    × (v.callback_refs ≡ start.callback_refs)
clear-set_example = clear-set demo_accepts Names.field_access 9 start refl (ground arith) refl

deliver-set_example :
    deliver 7 (Delivery.breakpoint 3 (pos 4)) stepping
    ≡ enable_events_after_callback_handling
        (record (quiet (Delivery.breakpoint 3 (pos 4)) 1007 stepping.jvm stepping) { frame = [] })
deliver-set_example =
    deliver-set demo_accepts 7 1007 stepping.jvm (Delivery.breakpoint 3 (pos 4)) stepping
      (quiet (Delivery.breakpoint 3 (pos 4)) 1007 stepping.jvm stepping) refl refl refl

disable_modes_example :
    (v : World Jvm) × (disable_events_before_callback_handling stepping ≡ ok tt v)
    × (v.jvm.0 EventType.single_step 1007 ≡ false)
    × (v.jvm.0 EventType.method_exit 1007 ≡ false)
    × (v.jvm.0 EventType.breakpoint 1007 ≡ false)
disable_modes_example =
    disable_modes demo_mode_laws demo_accepts stepping 1007 EventType.breakpoint 1007 refl
      (ground arith) (ground arith)

enable_modes_example :
    (v : World Jvm) × (enable_events_after_callback_handling stepping ≡ ok tt v)
    × (v.jvm.0 EventType.single_step 1007 ≡ true)
    × (v.jvm.0 EventType.method_exit 1007 ≡ false)
    × (v.callback_refs ≡ stepping.callback_refs)
    × (v.frame ≡ [])
enable_modes_example = enable_modes demo_mode_laws demo_accepts true true stepping refl refl refl

method_exit_lost_example :
    (v : World Jvm) × (deliver 7 (Delivery.breakpoint 3 (pos 4)) stepping ≡ ok tt v)
    × (is_no_ref v.callback_refs.cb_method_exit_ref ≡ false)
    × (v.jvm.0 EventType.method_exit 1007 ≡ false)
method_exit_lost_example =
    method_exit_lost demo_mode_laws demo_accepts 7 1007 stepping.jvm (Delivery.breakpoint 3 (pos 4))
      stepping (quiet (Delivery.breakpoint 3 (pos 4)) 1007 stepping.jvm stepping) refl refl refl
      refl refl refl refl

set_unknown_example :
    lj_set_jvmti_callback (enter (Value.function 9 ∷ Value.string "exception_catch" ∷ []) start)
    ≡ raised
        (Value.string "Unknown or unmapped callback 'exception_catch'\n")
        (record start { registry = (1, Value.function 9) ∷ [] })
set_unknown_example = set_unknown "exception_catch" 9 start exception_catch-IsUnknown (ground arith)

clear_unknown_example :
    lj_clear_jvmti_callback (enter (Value.string "exception_catch" ∷ []) start) ≡ undefined start
clear_unknown_example = clear_unknown "exception_catch" start exception_catch-IsUnknown

started_state : IsReachable start
unfolding lj_init_jvmti_event
started_state = initially start start refl returned

set_state : IsReachable (after_set Names.single_step 9 1007 start)
set_state =
    sets (Value.function 9 ∷ Value.string "single_step" ∷ []) start
      (after_set Names.single_step 9 1007 start) started_state
      (rw (set_lem demo_accepts Names.single_step 9 start refl (ground arith)) returned)

IsReachable-Wiring_example : Wiring (after_set Names.single_step 9 1007 start)
IsReachable-Wiring_example = IsReachable-Wiring set_state
