-- ===== src/Event/Registry.antt =====
-- lua_jvmti_event.c: `lj_set_jvmti_callback` and `lj_clear_jvmti_callback`.
use Prim.Native.String.{◌++◌}
use yellow_tree.Common.{ℕ, Option, none, some, String, str_eq, if◌then◌else◌}
use yellow_tree.Runtime.Value.{
  error_none, Ref, no_ref, is_zero_ref, Handler, EventType, single_step, method_exit, exception,
  field_access, field_modification,
}
use yellow_tree.Runtime.Host.{Host}
use yellow_tree.Runtime.World.{Cmd, ok, undefined, pure, ◌>>=◌, ◌>>◌, modify}
use yellow_tree.Runtime.Stack.{check_string, check_function, lua_pop, lua_ref, lua_error_message}
use yellow_tree.Runtime.Calls.{jvmti_call, jvmti_ignore}
use yellow_tree.JniUtil.{ev_enablet, ev_disablet}
use yellow_tree.LuaJava.{check_jvmti_error, get_current_java_thread}
use yellow_tree.Event.{Member, RefMember, write_member, write_ref, get_jvmti_callback_pointers}

-- The event that a callback's name switches on or off; `breakpoint` and `method_entry` switch none.
unfoldable pub switched_event : String → Option EventType
switched_event callback =
    if str_eq callback "single_step"
    then some single_step
    else if str_eq callback "method_exit"
    then some method_exit
    else if str_eq callback "exception_throw"
    then some exception
    else if str_eq callback "field_access"
    then some field_access
    else if str_eq callback "field_modification"
    then some field_modification
    else none

module _ {J : Type 0} ⦃host : Host J⦄ where
  -- `*jvmti_callback_ptr = h` and `*ref_ptr = r`: writes through the two pointers
  abbrev pub store_handler : Option Member → Option Handler → Cmd J (Unit {0})
  store_handler none h w = undefined w
  store_handler (some m) h w =
      ok tt (record w { jvmti_callbacks = write_member m h w.jvmti_callbacks })

  abbrev pub store_ref : Option RefMember → Ref → Cmd J (Unit {0})
  store_ref none r w = undefined w
  store_ref (some m) r w = ok tt (record w { callback_refs = write_ref m r w.callback_refs })

  -- `lj_err = EV_ENABLET(...)` for the events that need it
  abbrev pub enable_event : Option EventType → Cmd J (Unit {0})
  enable_event none = pure tt
  enable_event (some type) = do
    thread ← get_current_java_thread
    jvmti_call (ev_enablet type (some thread))

  -- `EV_DISABLET(...)`, whose result is not assigned
  abbrev pub disable_event : Option EventType → Cmd J (Unit {0})
  disable_event none = pure tt
  disable_event (some type) = do
    thread ← get_current_java_thread
    jvmti_ignore (ev_disablet type (some thread))

  abbrev pub set_no_error : Cmd J (Unit {0})
  set_no_error = modify (λ w. record w { lj_err = error_none })

  -- `SetEventCallbacks` with the shared table
  abbrev pub install_callbacks : Cmd J (Unit {0})
  install_callbacks w = jvmti_call (host.jvmti.set_event_callbacks w.jvmti_callbacks) w

  abbrev pub require_ref : String → Option RefMember → Cmd J (Unit {0})
  require_ref callback none =
      lua_error_message ("Unknown or unmapped callback '" ++ callback ++ "'\n")
  require_ref callback (some m) = pure tt

  -- what follows once the event is switched on
  unfoldable pub store_callback : String → Ref → Cmd J (Unit {0})
  unfolding get_jvmti_callback_pointers
  store_callback callback r = do
    let p = get_jvmti_callback_pointers callback
    require_ref callback p.ref_member
    store_handler p.jvmti_function p.lj_function
    store_ref p.ref_member r
    install_callbacks
    check_jvmti_error "lua_jvmti_event.c" 396 "lj_set_jvmti_callback"

  unfoldable pub lj_set_jvmti_callback : Cmd J ℕ
  unfolding store_callback switched_event
  lj_set_jvmti_callback = do
    callback ← check_string 1
    check_function 2
    r ← lua_ref
    lua_pop 1
    (if is_zero_ref r
        then lua_error_message ("Unknown callback '" ++ callback ++ "'\n")
        else pure tt)
    set_no_error
    enable_event (switched_event callback)
    check_jvmti_error "lua_jvmti_event.c" 386 "lj_set_jvmti_callback"
    store_callback callback r
    pure 0

  unfoldable pub remove_callback : String → Cmd J (Unit {0})
  unfolding get_jvmti_callback_pointers
  remove_callback callback = do
    let p = get_jvmti_callback_pointers callback
    store_handler p.jvmti_function none
    store_ref p.ref_member no_ref
    install_callbacks
    check_jvmti_error "lua_jvmti_event.c" 431 "lj_clear_jvmti_callback"

  unfoldable pub lj_clear_jvmti_callback : Cmd J ℕ
  unfolding remove_callback switched_event
  lj_clear_jvmti_callback = do
    callback ← check_string 1
    lua_pop 1
    set_no_error
    disable_event (switched_event callback)
    check_jvmti_error "lua_jvmti_event.c" 424 "lj_clear_jvmti_callback"
    remove_callback callback
    pure 0
