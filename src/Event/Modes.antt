-- ===== src/Event/Modes.antt =====
-- Which events are switched on, before, during and after a callback.
use yellow_tree.Common.{Bool, true, false, not, ◌&&◌, ◌||◌, ◌∙◌, some, ◌≡◌, ◌≢◌, refl, arith}
use yellow_tree.Runtime.Value
use yellow_tree.Runtime.Value.{
  Ptr, Value, Ref, no_ref, is_no_ref, error_none, disable, enable, EventMode, EventType, JvmtiError,
}
use yellow_tree.Runtime.Host.{Host}
use yellow_tree.Runtime.World.{World, Scripts, ok}
use yellow_tree.LuaJava.{check_jvmti_error, get_current_java_thread}
use yellow_tree.Runtime.Stack.{value_of_ref}
use yellow_tree.Event.{read_ref}
use yellow_tree.Event.Names.{ref_of}
use yellow_tree.Event.Setting.{Accepts}
use yellow_tree.Event.Delivery.{
  disable_lem, JvmtiEvent, quiet, deliver, deliver-set, callback_of, args_of, results_of,
}
use yellow_tree.Event.Dispatch.{
  disable_events_before_callback_handling, enable_events_after_callback_handling,
}

abbrev pub is_enable : EventMode → Bool
is_enable enable = true
is_enable disable = false

-- JVMTI keeps a mode for each event and thread, and `SetEventNotificationMode` writes that one.
pub record ModeLaws {J : Type 0} (host : Host J) : Type 0 where
  pub is_enabled : J → EventType → Ptr → Bool
  pub set_mode :
      (m : EventMode) (e : EventType) (t : Ptr) (j : J)
      → is_enabled (host.jvmti.set_event_notification_mode m e (some t) j).1 e t ≡ is_enable m
  pub keep_mode :
      (m : EventMode) (e d : EventType) (t u : Ptr) (j : J)
      → e ≢ d
      → is_enabled (host.jvmti.set_event_notification_mode m e (some t) j).1 d u ≡ is_enabled j d u

module _ {J : Type 0} ⦃host : Host J⦄ (laws : ModeLaws host) where
  open laws use {is_enabled, set_mode, keep_mode}

  module _ (acc : Accepts host) where
    -- With JVMTI accepting the calls and keeping a mode for each event and thread, before a
    -- callback runs single steps and method exits are switched off for the thread of the event,
    -- and any other event is as it was.
    pub disable_modes :
        (w : World J) (g : Ptr) (d : EventType) (u : Ptr)
        → w.lj_current_thread ≡ some g
        → Value.single_step ≢ d
        → Value.method_exit ≢ d
        → (v : World J) × (disable_events_before_callback_handling w ≡ ok tt v)
          × (is_enabled v.jvm Value.single_step g ≡ false)
          × (is_enabled v.jvm Value.method_exit g ≡ false)
          × (is_enabled v.jvm d u ≡ is_enabled w.jvm d u)
    disable_modes w g d u here ss me = (
      _,
      disable_lem acc w here,
      keep_mode _ _ _ _ _ _ (ground arith) ∙ set_mode _ _ _ _,
      set_mode _ _ _ _,
      keep_mode _ _ _ _ _ _ me ∙ keep_mode _ _ _ _ _ _ ss,
    )

    -- The three branches: a single step callback is set, only a method exit callback is, or neither.
    abbrev switched_on : Bool → Bool → Ptr → J → J
    switched_on true me g j =
        (host.jvmti.set_event_notification_mode enable Value.single_step (some g) j).1
    switched_on false true g j =
        (host.jvmti.set_event_notification_mode enable Value.method_exit (some g) j).1
    switched_on false false g j = j

    abbrev new_error : Bool → Bool → JvmtiError → JvmtiError
    new_error false false e = e
    new_error _ _ e = error_none

    enable_branches :
        (ss me : Bool) (w : World J) {g : Ptr}
        → w.lj_current_thread ≡ some g
        → is_no_ref w.callback_refs.cb_single_step_ref ≡ not ss
        → is_no_ref w.callback_refs.cb_method_exit_ref ≡ not me
        → enable_events_after_callback_handling w
          ≡ ok tt (record w { lj_err = new_error ss me w.lj_err; jvm = switched_on ss me g w.jvm })
    unfolding enable_events_after_callback_handling get_current_java_thread check_jvmti_error
    enable_branches true me w {g} h s m =
        ground (arith, acc.modes enable Value.single_step (some g) w.jvm)
    enable_branches false true w {g} h s m =
        ground (arith, acc.modes enable Value.method_exit (some g) w.jvm)
    enable_branches false false w {g} h s m = ground arith

    switched_on-single_step :
        (ss me : Bool) (g : Ptr) (j : J)
        → is_enabled (switched_on ss me g j) Value.single_step g
          ≡ (ss || is_enabled j Value.single_step g)
    switched_on-single_step true me g j = set_mode _ _ _ _
    switched_on-single_step false true g j = keep_mode _ _ _ _ _ _ (ground arith)
    switched_on-single_step false false g j = refl

    switched_on-method_exit :
        (ss me : Bool) (g : Ptr) (j : J)
        → is_enabled (switched_on ss me g j) Value.method_exit g
          ≡ ((not ss && me) || is_enabled j Value.method_exit g)
    switched_on-method_exit true me g j = keep_mode _ _ _ _ _ _ (ground arith)
    switched_on-method_exit false true g j = set_mode _ _ _ _
    switched_on-method_exit false false g j = refl

    -- With JVMTI accepting the calls and keeping a mode for each event and thread, after a
    -- callback single steps are on for the current thread if their callback is set, and otherwise
    -- as before; method exits are switched on only if their callback is set and that of single
    -- steps is not.
    pub enable_modes :
        (ss me : Bool) (w : World J) {g : Ptr}
        → w.lj_current_thread ≡ some g
        → is_no_ref w.callback_refs.cb_single_step_ref ≡ not ss
        → is_no_ref w.callback_refs.cb_method_exit_ref ≡ not me
        → (v : World J) × (enable_events_after_callback_handling w ≡ ok tt v)
          × (is_enabled v.jvm Value.single_step g ≡ (ss || is_enabled w.jvm Value.single_step g))
          × (is_enabled v.jvm Value.method_exit g
              ≡ ((not ss && me) || is_enabled w.jvm Value.method_exit g))
          × (v.callback_refs ≡ w.callback_refs)
          × (v.frame ≡ w.frame)
    enable_modes ss me w {g} h s m = (
      record w { lj_err = new_error ss me w.lj_err; jvm = switched_on ss me g w.jvm },
      enable_branches ss me w h s m,
      switched_on-single_step ss me g w.jvm,
      switched_on-method_exit ss me g w.jvm,
      refl,
      refl,
    )

    -- With JVMTI accepting the calls and keeping a mode for each event and thread, for any of the
    -- seven events whose callback is set: where the callbacks of single steps and of method exits
    -- are both set when the Lua function returns, the current thread is still that of the event
    -- and method exits are still off, they stay off for the thread although their callback is set.
    pub method_exit_lost :
        ⦃scripts : Scripts J⦄ (t g : Ptr) (j : J) (e : JvmtiEvent) (w left : World J)
        → is_no_ref (read_ref (ref_of (callback_of e)) w.callback_refs) ≡ false
        → host.jni.new_global_ref t w.jvm ≡ (some g, j)
        → (scripts.call
            (value_of_ref (read_ref (ref_of (callback_of e)) w.callback_refs) w.registry)
            (args_of t e)
            (results_of e)
            (quiet e g j w)).1
          ≡ left
        → left.lj_current_thread ≡ some g
        → is_no_ref left.callback_refs.cb_single_step_ref ≡ false
        → is_no_ref left.callback_refs.cb_method_exit_ref ≡ false
        → is_enabled left.jvm Value.method_exit g ≡ false
        → (v : World J) × (deliver t e w ≡ ok tt v)
          × (is_no_ref v.callback_refs.cb_method_exit_ref ≡ false)
          × (is_enabled v.jvm Value.method_exit g ≡ false)
    method_exit_lost t g j e w left set kept runs here ss me off =
        let (v, run, _, exits, refs, _) =
          enable_modes true true (record left { frame = w.frame }) here ss me in
        (v, deliver-set acc t g j e w left set kept runs ∙ run, rw refs me, exits ∙ off)
