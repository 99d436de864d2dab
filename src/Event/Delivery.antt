-- ===== src/Event/Delivery.antt =====
-- What a C callback does with its event, for all seven at once.
use yellow_tree.Common.{
  ℕ, Bool, false, Option, none, some, String, [], ◌∷◌, List, ◌≡◌, refl, arith, ◌∙◌, ap,
}
use yellow_tree.Common.Int.{ℤ}
use yellow_tree.Runtime.Value
use yellow_tree.Runtime.Value.{
  Ptr, Value, Ref, no_ref, is_no_ref, error_none, disable, enable, object, method, field_of,
  object_or_nil,
}
use yellow_tree.Runtime.Host.{Host}
use yellow_tree.Runtime.World.{World, Cmd, Scripts, ok}
use yellow_tree.Runtime.Stack.{value_of_ref}
use yellow_tree.Bridge.{new_jobject, new_jmethod_id, new_jfield_id}
use yellow_tree.LuaJava.{check_jvmti_error, get_current_java_thread}
use yellow_tree.Event.{read_ref}
use yellow_tree.Event.Names
use yellow_tree.Event.Names.{Callback, ref_of}
use yellow_tree.Event.Setting.{Accepts}
use yellow_tree.Event.Dispatch.{
  cb_breakpoint, cb_method_entry, cb_method_exit, cb_single_step, cb_exception_throw,
  cb_field_access, cb_field_modification, disable_events_before_callback_handling,
  enable_events_after_callback_handling,
}

-- An event as JVMTI reports it.
pub data JvmtiEvent : Type 0 where
  breakpoint single_step : (method_id : Ptr) (location : ℤ) → JvmtiEvent
  method_entry : (method_id : Ptr) → JvmtiEvent
  method_exit : (method_id : Ptr) (was_popped_by_exception : Bool) → JvmtiEvent
  exception_throw :
      (method_id : Ptr) (location : ℤ) (exception : Option Ptr) (catch_method : Ptr)
      (catch_location : ℤ)
      → JvmtiEvent
  field_access field_modification :
      (method_id : Ptr) (location : ℤ) (field_klass : Ptr) (object : Option Ptr) (field_id : Ptr)
      → JvmtiEvent

abbrev pub callback_of : JvmtiEvent → Callback
callback_of (breakpoint _ _) = Names.breakpoint
callback_of (single_step _ _) = Names.single_step
callback_of (method_entry _) = Names.method_entry
callback_of (method_exit _ _) = Names.method_exit
callback_of (exception_throw _ _ _ _ _) = Names.exception_throw
callback_of (field_access _ _ _ _ _) = Names.field_access
callback_of (field_modification _ _ _ _ _) = Names.field_modification

-- The arguments of the Lua function, the thread first.
abbrev pub args_of : Ptr → JvmtiEvent → List Value
args_of t (breakpoint m n) = object t ∷ method m ∷ Value.integer n ∷ []
args_of t (single_step m n) = object t ∷ method m ∷ Value.integer n ∷ []
args_of t (method_entry m) = object t ∷ method m ∷ []
args_of t (method_exit m b) = object t ∷ method m ∷ Value.boolean b ∷ []
args_of t (exception_throw m n x m' n') =
    object t ∷ method m ∷ Value.integer n ∷ object_or_nil x ∷ method m' ∷ Value.integer n' ∷ []
args_of t (field_access m n k o f) =
    object t ∷ method m ∷ Value.integer n ∷ object k ∷ object_or_nil o ∷ field_of f k ∷ []
args_of t (field_modification m n k o f) =
    object t ∷ method m ∷ Value.integer n ∷ object k ∷ object_or_nil o ∷ field_of f k ∷ []

-- How many results are asked for; all are dropped with the Lua thread.
abbrev pub results_of : JvmtiEvent → ℕ
results_of (breakpoint _ _) = 0
results_of (single_step _ _) = 1
results_of (method_entry _) = 1
results_of (method_exit _ _) = 1
results_of (exception_throw _ _ _ _ _) = 0
results_of (field_access _ _ _ _ _) = 0
results_of (field_modification _ _ _ _ _) = 0

-- The lines that the callbacks of the two watches print first.
abbrev pub announced : JvmtiEvent → List String → List String
announced (field_access _ _ _ _ _) out = "***** cb_field_access_ref *****\n" ∷ out
announced (field_modification _ _ _ _ _) out = "***** cb_field_modification_ref *****\n" ∷ out
announced _ out = out

module _ {J : Type 0} ⦃host : Host J⦄ where
  pub disable_lem :
      (acc : Accepts host) (w : World J) {g : Ptr}
      → w.lj_current_thread ≡ some g
      → disable_events_before_callback_handling w
        ≡ ok tt (record w {
          lj_err = error_none;
          jvm =
              (host.jvmti.set_event_notification_mode disable Value.method_exit
                (some g)
                (host.jvmti.set_event_notification_mode disable Value.single_step
                  (some g)
                  w.jvm).1).1;
        })
  unfolding disable_events_before_callback_handling check_jvmti_error get_current_java_thread
  disable_lem acc w {g} h = ground (
    arith,
    acc.modes disable Value.single_step (some g) w.jvm,
    acc.modes disable Value.method_exit (some g)
        (host.jvmti.set_event_notification_mode disable Value.single_step (some g) w.jvm).1,
  )

  module _ ⦃scripts : Scripts J⦄ where
    -- the C function that JVMTI calls for the event
    abbrev pub deliver : Ptr → JvmtiEvent → Cmd J (Unit {0})
    deliver t (breakpoint m n) = cb_breakpoint t m n
    deliver t (single_step m n) = cb_single_step t m n
    deliver t (method_entry m) = cb_method_entry t m
    deliver t (method_exit m b) = cb_method_exit t m b
    deliver t (exception_throw m n x m' n') = cb_exception_throw t m n x m' n'
    deliver t (field_access m n k o f) = cb_field_access t m n k o f
    deliver t (field_modification m n k o f) = cb_field_modification t m n k o f

    -- The state in which the Lua function runs: `g` is a global reference to the thread.
    abbrev pub quiet : JvmtiEvent → Ptr → J → World J → World J
    quiet e g j w = record w {
      frame = [];
      lj_current_thread = some g;
      lj_err = error_none;
      printed = announced e w.printed;
      jvm =
          (host.jvmti.set_event_notification_mode disable Value.method_exit (some g)
            (host.jvmti.set_event_notification_mode disable Value.single_step (some g) j).1).1;
    }

    -- The state in which events are switched off for the thread.
    abbrev started : JvmtiEvent → Ptr → J → World J → World J
    started e g j w = record w {
      frame = Value.thread ∷ w.frame;
      lj_current_thread = some g;
      jvm = j;
      printed = announced e w.printed;
    }

    -- An event whose callback is not set changes nothing, but that the two watches print a line.
    pub deliver-unset :
        (t : Ptr) (e : JvmtiEvent) (w : World J)
        → read_ref (ref_of (callback_of e)) w.callback_refs ≡ no_ref
        → deliver t e w ≡ ok tt (record w { printed = announced e w.printed })
    unfolding cb_breakpoint cb_method_entry cb_method_exit cb_single_step cb_exception_throw
        cb_field_access cb_field_modification
    deliver-unset t (breakpoint m n) w h = rw h
    deliver-unset t _ w h = rw h

    deliver-call :
        (acc : Accepts host) (t g : Ptr) (j : J) (e : JvmtiEvent) (w : World J)
        → is_no_ref (read_ref (ref_of (callback_of e)) w.callback_refs) ≡ false
        → host.jni.new_global_ref t w.jvm ≡ (some g, j)
        → let f = value_of_ref (read_ref (ref_of (callback_of e)) w.callback_refs) w.registry in
          let (_, w') = scripts.call f (args_of t e) (results_of e) (quiet e g j w) in
          deliver t e w ≡ enable_events_after_callback_handling (record w' { frame = w.frame })
    unfolding cb_breakpoint cb_method_entry cb_method_exit cb_single_step cb_exception_throw
        cb_field_access cb_field_modification new_jobject new_jmethod_id new_jfield_id
    deliver-call acc t g j (exception_throw m n none m' n') w h e =
        rw (h, e) (rw (disable_lem acc (started (exception_throw m n none m' n') g j w) refl) refl)
    deliver-call acc t g j (exception_throw m n (some x) m' n') w h e =
        rw (h, e)
          (rw (disable_lem acc (started (exception_throw m n (some x) m' n') g j w) refl) refl)
    deliver-call acc t g j (field_access m n k none f) w h e =
        rw (h, e) (rw (disable_lem acc (started (field_access m n k none f) g j w) refl) refl)
    deliver-call acc t g j (field_access m n k (some o) f) w h e =
        rw (h, e) (rw (disable_lem acc (started (field_access m n k (some o) f) g j w) refl) refl)
    deliver-call acc t g j (field_modification m n k none f) w h e =
        rw (h, e) (rw (disable_lem acc (started (field_modification m n k none f) g j w) refl) refl)
    deliver-call acc t g j (field_modification m n k (some o) f) w h e =
        rw (h, e)
          (rw (disable_lem acc (started (field_modification m n k (some o) f) g j w) refl) refl)
    deliver-call acc t g j event w h e =
        rw (h, e) (rw (disable_lem acc (started event g j w) refl) refl)

    -- For each of the seven events, when its callback is set, JVMTI accepts the mode changes and
    -- JNI gives a global reference, the C function calls the Lua function that the reference keeps
    -- once, on a new stack, with the thread and the rest of the event in order, in a state where
    -- the two events were switched off; it then restores the stack of lj_L and switches the events
    -- on again in the state the function left.
    pub deliver-set :
        (acc : Accepts host) (t g : Ptr) (j : J) (e : JvmtiEvent) (w left : World J)
        → is_no_ref (read_ref (ref_of (callback_of e)) w.callback_refs) ≡ false
        → host.jni.new_global_ref t w.jvm ≡ (some g, j)
        → (scripts.call
            (value_of_ref (read_ref (ref_of (callback_of e)) w.callback_refs) w.registry)
            (args_of t e)
            (results_of e)
            (quiet e g j w)).1
          ≡ left
        → deliver t e w ≡ enable_events_after_callback_handling (record left { frame = w.frame })
    deliver-set acc t g j e w left h r runs =
        deliver-call acc t g j e w h r
        ∙ ap (λ v. enable_events_after_callback_handling (record v { frame = w.frame })) runs
