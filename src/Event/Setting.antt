-- ===== src/Event/Setting.antt =====
-- What setting and clearing a callback does when JVMTI accepts the calls.
use yellow_tree.Common.{ℕ, Option, none, some, String, ◌≡◌, refl, arith, [], ◌∷◌, ◌≢◌, ◌==◌, false}
use yellow_tree.Runtime.Value.{
  Ptr, Value, JvmtiError, error_none, Ref, ref, no_ref, EventMode, enable, disable, EventType,
  EventCallbacks,
}
use yellow_tree.Runtime.Host.{Host}
use yellow_tree.Runtime.World.{World, ok, enter}
use yellow_tree.Event.{write_member, write_ref, Handler}
use yellow_tree.Event.Names.{
  Callback, breakpoint, method_entry, method_exit, single_step, exception_throw, field_access,
  field_modification, name_of, member_of, handler_of, ref_of, pointers-name,
}
use yellow_tree.Event.Registry.{
  store_callback, remove_callback, switched_event, enable_event, disable_event,
  lj_set_jvmti_callback, lj_clear_jvmti_callback,
}
use yellow_tree.LuaJava.{get_current_java_thread, check_jvmti_error}
use yellow_tree.Runtime.Value

abbrev pub event_of : Callback → Option EventType
event_of breakpoint = none
event_of method_entry = none
event_of method_exit = some Value.method_exit
event_of single_step = some Value.single_step
event_of exception_throw = some Value.exception
event_of field_access = some Value.field_access
event_of field_modification = some Value.field_modification

pub switched_event-name : (c : Callback) → switched_event (name_of c) ≡ event_of c
unfolding switched_event
switched_event-name breakpoint = refl
switched_event-name method_entry = refl
switched_event-name method_exit = refl
switched_event-name single_step = refl
switched_event-name exception_throw = refl
switched_event-name field_access = refl
switched_event-name field_modification = refl

-- JVMTI accepts every change of an event's mode and of the table.
pub record Accepts {J : Type 0} (host : Host J) : Type 0 where
  pub modes :
      (m : EventMode) (e : EventType) (t : Option Ptr) (j : J)
      → (host.jvmti.set_event_notification_mode m e t j).0 ≡ error_none
  pub tables : (t : EventCallbacks) (j : J) → (host.jvmti.set_event_callbacks t j).0 ≡ error_none

module _ {J : Type 0} ⦃host : Host J⦄ where
  abbrev pub switch : EventMode → Option EventType → Ptr → J → J
  switch m none thread j = j
  switch m (some e) thread j = (host.jvmti.set_event_notification_mode m e (some thread) j).1

  -- The state after the table has been written and installed.
  abbrev installed : Callback → Option Handler → Ref → World J → World J
  installed c h r w =
      let t = write_member (member_of c) h w.jvmti_callbacks in
      record w {
        lj_err = error_none;
        jvmti_callbacks = t;
        callback_refs = write_ref (ref_of c) r w.callback_refs;
        jvm = (host.jvmti.set_event_callbacks t w.jvm).1;
      }

  -- The state after a callback has been set: the event that it needs is switched on for the
  -- thread at hand, the function is kept in the registry, and both tables point to it.
  abbrev pub after_set : Callback → (f : ℕ) → (thread : Ptr) → World J → World J
  after_set c f thread w =
      let n = host.lua.fresh_ref w.registry in
      installed c (some (handler_of c)) (ref n) (record w {
        frame = [];
        registry = (n, Value.function f) ∷ w.registry;
        jvm = switch enable (event_of c) thread w.jvm;
      })

  abbrev pub after_clear : Callback → (thread : Ptr) → World J → World J
  after_clear c thread w =
      installed c none no_ref
        (record w { frame = []; jvm = switch disable (event_of c) thread w.jvm })

  module _ (acc : Accepts host) where
    enable_event-switch :
        (o : Option EventType) (thread : Ptr) (w : World J)
        → w.lj_current_thread ≡ some thread
        → w.lj_err ≡ error_none
        → enable_event o w ≡ ok tt (record w { jvm = switch enable o thread w.jvm })
    unfolding get_current_java_thread
    enable_event-switch none thread w h e = refl
    enable_event-switch (some type) thread w h e =
        ground (arith, acc.modes enable type (some thread) w.jvm)

    disable_event-switch :
        (o : Option EventType) (thread : Ptr) (w : World J)
        → w.lj_current_thread ≡ some thread
        → disable_event o w ≡ ok tt (record w { jvm = switch disable o thread w.jvm })
    unfolding get_current_java_thread
    disable_event-switch none thread w h = refl
    disable_event-switch (some type) thread w h = ground arith

    check_none :
        (file : String) (line : ℕ) (func : String) (w : World J)
        → w.lj_err ≡ error_none
        → check_jvmti_error file line func w ≡ ok tt w
    unfolding check_jvmti_error
    check_none file line func w e = rw e

    store_callback-installed :
        (c : Callback) (r : Ref) (w : World J)
        → store_callback (name_of c) r w ≡ ok tt (installed c (some (handler_of c)) r w)
    unfolding store_callback check_jvmti_error
    store_callback-installed c r w = rw (pointers-name c) (
        rw (acc.tables (write_member (member_of c) (some (handler_of c)) w.jvmti_callbacks) w.jvm)
          refl)

    remove_callback-installed :
        (c : Callback) (w : World J)
        → remove_callback (name_of c) w ≡ ok tt (installed c none no_ref w)
    unfolding remove_callback check_jvmti_error
    remove_callback-installed c w =
        rw (pointers-name c)
          (rw (acc.tables (write_member (member_of c) none w.jvmti_callbacks) w.jvm) refl)

    -- Setting one of the seven callbacks to a function leaves this state and returns nothing.
    pub set_lem :
        (c : Callback) (f : ℕ) (w : World J) {thread : Ptr}
        → w.lj_current_thread ≡ some thread
        → host.lua.fresh_ref w.registry ≢ 0
        → lj_set_jvmti_callback (enter (Value.function f ∷ Value.string (name_of c) ∷ []) w)
          ≡ ok 0 (after_set c f thread w)
    unfolding lj_set_jvmti_callback
    set_lem c f w {thread} h ne =
        let z : (host.lua.fresh_ref w.registry == 0) ≡ false = ground arith in
        let n = host.lua.fresh_ref w.registry in
        let v = record w {
          frame = [];
          registry = (n, Value.function f) ∷ w.registry;
          lj_err = error_none;
        } in
        rw (z, switched_event-name c, enable_event-switch (event_of c) thread v h refl)
          (rw (check_none _ _ _ (record v { jvm = switch enable (event_of c) thread w.jvm }) refl) (
            rw
              (store_callback-installed c (ref n)
                (record v { jvm = switch enable (event_of c) thread w.jvm }))
              refl))

    -- Clearing one does the reverse, except that the function stays in the registry.
    pub clear_lem :
        (c : Callback) (w : World J) {thread : Ptr}
        → w.lj_current_thread ≡ some thread
        → lj_clear_jvmti_callback (enter (Value.string (name_of c) ∷ []) w)
          ≡ ok 0 (after_clear c thread w)
    unfolding lj_clear_jvmti_callback
    clear_lem c w {thread} h =
        let v = record w { frame = []; lj_err = error_none } in
        rw (switched_event-name c, disable_event-switch (event_of c) thread v h)
          (rw (check_none _ _ _ (record v { jvm = switch disable (event_of c) thread w.jvm }) refl)
            (rw
              (remove_callback-installed c
                (record v { jvm = switch disable (event_of c) thread w.jvm }))
              refl))
