-- ===== src/Event/Dispatch.antt =====
-- lua_jvmti_event.c: the C functions that JVMTI calls. Each hands its event to the Lua function that
-- was set for it, on a Lua thread of its own, while single steps and method exits are switched off.
use yellow_tree.Common.{Bool, not, Option, some, if◌then◌else◌}
use yellow_tree.Common.Int.{ℤ}
use yellow_tree.Runtime.Value.{Ptr, Value, is_no_ref, single_step, method_exit}
use yellow_tree.Runtime.Host.{Host}
use yellow_tree.Runtime.World.{Cmd, Scripts, ok, pure, ◌>>=◌, ◌>>◌, print}
use yellow_tree.Runtime.Stack.{push, lua_pop}
use yellow_tree.Runtime.Calls.{jni_get, jvmti_call}
use yellow_tree.Event.Protected.{print_traceback, lua_pcall, on_new_stack, push_ref}
use yellow_tree.Bridge.{new_jobject, new_jmethod_id, new_jfield_id}
use yellow_tree.JniUtil.{ev_enablet, ev_disablet}
use yellow_tree.LuaJava.{check_jvmti_error, get_current_java_thread, assert_some}

module _ {J : Type 0} ⦃host : Host J⦄ where
  unfoldable pub disable_events_before_callback_handling : Cmd J (Unit {0})
  disable_events_before_callback_handling = do
    thread ← get_current_java_thread
    jvmti_call (ev_disablet single_step (some thread))
    check_jvmti_error "lua_jvmti_event.c" 52 "disable_events_before_callback_handling"
    thread' ← get_current_java_thread
    jvmti_call (ev_disablet method_exit (some thread'))
    check_jvmti_error "lua_jvmti_event.c" 54 "disable_events_before_callback_handling"

  -- The second test is made only if no single step callback is set.
  unfoldable pub enable_events_after_callback_handling : Cmd J (Unit {0})
  enable_events_after_callback_handling w =
      if not (is_no_ref w.callback_refs.cb_single_step_ref)
      then (do
        thread ← get_current_java_thread
        jvmti_call (ev_enablet single_step (some thread))
        check_jvmti_error "lua_jvmti_event.c" 63 "enable_events_after_callback_handling")
          w
      else if not (is_no_ref w.callback_refs.cb_method_exit_ref)
      then (do
        thread ← get_current_java_thread
        jvmti_call (ev_enablet method_exit (some thread))
        check_jvmti_error "lua_jvmti_event.c" 68 "enable_events_after_callback_handling")
          w
      else ok tt w

  abbrev store_thread : Option Ptr → Cmd J (Unit {0})
  store_thread g w = ok tt (record w { lj_current_thread = g })

  -- `lj_current_thread = NewGlobalRef(thread)`, and the assertion that it is not null
  abbrev keep_thread : Ptr → Cmd J (Unit {0})
  keep_thread thread = do
    g ← jni_get (host.jni.new_global_ref thread)
    store_thread g
    assert_some g
    pure tt

  module _ ⦃scripts : Scripts J⦄ where
    unfoldable pub cb_breakpoint : (thread method_id : Ptr) (location : ℤ) → Cmd J (Unit {0})
    cb_breakpoint thread method_id location w =
        let r = w.callback_refs.cb_breakpoint_ref in
        if is_no_ref r
        then ok tt w
        else (do
          push Value.thread
          keep_thread thread
          disable_events_before_callback_handling
          on_new_stack (do
            push print_traceback
            push_ref r
            new_jobject (some thread)
            new_jmethod_id method_id
            push (Value.integer location)
            lua_pcall 3 0 5)
          lua_pop 1
          enable_events_after_callback_handling)
            w

    unfoldable pub cb_method_entry : (thread method_id : Ptr) → Cmd J (Unit {0})
    cb_method_entry thread method_id w =
        let r = w.callback_refs.cb_method_entry_ref in
        if is_no_ref r
        then ok tt w
        else (do
          push Value.thread
          keep_thread thread
          disable_events_before_callback_handling
          on_new_stack (do
            push print_traceback
            push_ref r
            new_jobject (some thread)
            new_jmethod_id method_id
            lua_pcall 2 1 4)
          lua_pop 1
          enable_events_after_callback_handling)
            w

    -- the return value is not handed on
    unfoldable pub cb_method_exit :
        (thread method_id : Ptr) (was_popped_by_exception : Bool) → Cmd J (Unit {0})
    cb_method_exit thread method_id was_popped_by_exception w =
        let r = w.callback_refs.cb_method_exit_ref in
        if is_no_ref r
        then ok tt w
        else (do
          push Value.thread
          keep_thread thread
          disable_events_before_callback_handling
          on_new_stack (do
            push print_traceback
            push_ref r
            new_jobject (some thread)
            new_jmethod_id method_id
            push (Value.boolean was_popped_by_exception)
            lua_pcall 3 1 5)
          lua_pop 1
          enable_events_after_callback_handling)
            w

    unfoldable pub cb_single_step : (thread method_id : Ptr) (location : ℤ) → Cmd J (Unit {0})
    cb_single_step thread method_id location w =
        let r = w.callback_refs.cb_single_step_ref in
        if is_no_ref r
        then ok tt w
        else (do
          push Value.thread
          keep_thread thread
          disable_events_before_callback_handling
          on_new_stack (do
            push print_traceback
            push_ref r
            new_jobject (some thread)
            new_jmethod_id method_id
            push (Value.integer location)
            lua_pcall 3 1 5)
          lua_pop 1
          enable_events_after_callback_handling)
            w

    unfoldable pub cb_exception_throw :
        (thread method_id : Ptr) (location : ℤ) (exception : Option Ptr) (catch_method : Ptr)
        (catch_location : ℤ)
        → Cmd J (Unit {0})
    cb_exception_throw thread method_id location exception catch_method catch_location w =
        let r = w.callback_refs.cb_exception_throw_ref in
        if is_no_ref r
        then ok tt w
        else (do
          push Value.thread
          keep_thread thread
          disable_events_before_callback_handling
          on_new_stack (do
            push print_traceback
            push_ref r
            new_jobject (some thread)
            new_jmethod_id method_id
            push (Value.integer location)
            new_jobject exception
            new_jmethod_id catch_method
            push (Value.integer catch_location)
            lua_pcall 6 0 8)
          lua_pop 1
          enable_events_after_callback_handling)
            w

    unfoldable pub cb_field_access :
        (thread method_id : Ptr) (location : ℤ) (field_klass : Ptr) (object : Option Ptr)
        (field_id : Ptr)
        → Cmd J (Unit {0})
    cb_field_access thread method_id location field_klass object field_id w =
        let r = w.callback_refs.cb_field_access_ref in
        if is_no_ref r
        then print "***** cb_field_access_ref *****\n" w
        else (do
          print "***** cb_field_access_ref *****\n"
          push Value.thread
          keep_thread thread
          disable_events_before_callback_handling
          on_new_stack (do
            push print_traceback
            push_ref r
            new_jobject (some thread)
            new_jmethod_id method_id
            push (Value.integer location)
            new_jobject (some field_klass)
            new_jobject object
            new_jfield_id field_id field_klass
            lua_pcall 6 0 8)
          lua_pop 1
          enable_events_after_callback_handling)
            w

    unfoldable pub cb_field_modification :
        (thread method_id : Ptr) (location : ℤ) (field_klass : Ptr) (object : Option Ptr)
        (field_id : Ptr)
        → Cmd J (Unit {0})
    cb_field_modification thread method_id location field_klass object field_id w =
        let r = w.callback_refs.cb_field_modification_ref in
        if is_no_ref r
        then print "***** cb_field_modification_ref *****\n" w
        else (do
          print "***** cb_field_modification_ref *****\n"
          push Value.thread
          keep_thread thread
          disable_events_before_callback_handling
          on_new_stack (do
            push print_traceback
            push_ref r
            new_jobject (some thread)
            new_jmethod_id method_id
            push (Value.integer location)
            new_jobject (some field_klass)
            new_jobject object
            new_jfield_id field_id field_klass
            lua_pcall 6 0 8)
          lua_pop 1
          enable_events_after_callback_handling)
            w
