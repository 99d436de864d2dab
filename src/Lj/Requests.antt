-- ===== src/Lj/Requests.antt =====
-- The functions that make one call of JVMTI and have no result: breakpoints, watches, the early
-- return of a method, and raw monitors.
use Prim.Native.String.{len}
use yellow_tree.Common.{
  ℕ, Bool, Option, none, some, List, drop, ◌^◌, ◌<◌, [], ◌∷◌, String, ◌≡◌, if◌then◌else◌,
}
use yellow_tree.Common.Int.{ℤ, pos, narrow}
use yellow_tree.Runtime.Value.{
  Value, Ptr, JvmtiError, is_none_error, object, object_or_nil, method, field_of,
}
use yellow_tree.Runtime.Host.{Host}
use yellow_tree.Runtime.World.{Cmd, and_then, World, Outcome, ok, raised, enter}
use yellow_tree.LuaJava.{jvmti_message, errmsg, check_jvmti_error}
use yellow_tree.LuaJava.Errors.{reported, checked-branches}
use yellow_tree.LuaJava.Breakpoint.{lj_set_breakpoint, lj_clear_breakpoint}
use yellow_tree.Lj.Watch.{lj_set_field_access_watch, lj_set_field_modification_watch}
use yellow_tree.Lj.EarlyReturn.{
  lj_force_early_return_void, lj_force_early_return_object, lj_force_early_return_int,
}
use yellow_tree.Lj.RawMonitor.{
  lj_destroy_raw_monitor, lj_raw_monitor_enter, lj_raw_monitor_exit, lj_raw_monitor_wait,
  lj_raw_monitor_notify, lj_raw_monitor_notify_all,
}
use yellow_tree.Lj.Monitors.{
  Operation, enters, exits, notifies, notifies_all, destroys, waits, operate, jvmti_operation,
}

pub data Request : Type 0 where
  sets_breakpoint clears_breakpoint : (method_id : Ptr) (location : ℤ) → Request
  watches_access watches_modification : (field_id klass : Ptr) → Request
  returns_early : (thread : Ptr) → Request
  returns_object : (thread : Ptr) → Option Ptr → Request
  returns_int : (thread : Ptr) → ℤ → Request
  returns_boolean : (thread : Ptr) → Bool → Request
  operates : Operation → (monitor : Ptr) → Request

abbrev file_of : Request → String
file_of (sets_breakpoint _ _) = "lua_java.c"
file_of (clears_breakpoint _ _) = "lua_java.c"
file_of (watches_access _ _) = "lua_java/lj_watch.c"
file_of (watches_modification _ _) = "lua_java/lj_watch.c"
file_of (returns_early _) = "lua_java/lj_force_early_return.c"
file_of (returns_object _ _) = "lua_java/lj_force_early_return.c"
file_of (returns_int _ _) = "lua_java/lj_force_early_return.c"
file_of (returns_boolean _ _) = "lua_java/lj_force_early_return.c"
file_of (operates _ _) = "lua_java/lj_raw_monitor.c"

abbrev line_of : Request → ℕ
line_of (sets_breakpoint _ _) = 106
line_of (clears_breakpoint _ _) = 121
line_of (watches_access _ _) = 16
line_of (watches_modification _ _) = 29
line_of (returns_early _) = 57
line_of (returns_object _ _) = 13
line_of (returns_int _ _) = 29
line_of (returns_boolean _ _) = 29
line_of (operates destroys _) = 34
line_of (operates enters _) = 47
line_of (operates exits _) = 60
line_of (operates (waits _) _) = 75
line_of (operates notifies _) = 88
line_of (operates notifies_all _) = 101

abbrev function_of : Request → String
function_of (sets_breakpoint _ _) = "lj_set_breakpoint"
function_of (clears_breakpoint _ _) = "lj_clear_breakpoint"
function_of (watches_access _ _) = "lj_set_field_access_watch"
function_of (watches_modification _ _) = "lj_set_field_modification_watch"
function_of (returns_early _) = "lj_force_early_return_void"
function_of (returns_object _ _) = "lj_force_early_return_object"
function_of (returns_int _ _) = "lj_force_early_return_int"
function_of (returns_boolean _ _) = "lj_force_early_return_int"
function_of (operates destroys _) = "lj_destroy_raw_monitor"
function_of (operates enters _) = "lj_raw_monitor_enter"
function_of (operates exits _) = "lj_raw_monitor_exit"
function_of (operates (waits _) _) = "lj_raw_monitor_wait"
function_of (operates notifies _) = "lj_raw_monitor_notify"
function_of (operates notifies_all _) = "lj_raw_monitor_notify_all"

-- The arguments that still stand on the stack when the error is checked.
abbrev pub left_on_stack : Request → List Value
left_on_stack (returns_object t o) = object_or_nil o ∷ object t ∷ []
left_on_stack (returns_int t n) = Value.integer n ∷ object t ∷ []
left_on_stack (returns_boolean t b) = Value.boolean b ∷ object t ∷ []
left_on_stack _ = []

-- The error's text, which names the place in the C code.
abbrev pub message_of : {J : Type 0} → Host J → Request → JvmtiError → (name : String) → String
message_of host r e name =
    jvmti_message host.lua.format_d (file_of r) (line_of r) (function_of r) e name

module _ {J : Type 0} ⦃host : Host J⦄ where
  -- The C function that Lua calls, and the function of JVMTI.
  abbrev pub request : Request → World J → Outcome J ℕ
  request (sets_breakpoint m n) w = lj_set_breakpoint (enter (Value.integer n ∷ method m ∷ []) w)
  request (clears_breakpoint m n) w =
      lj_clear_breakpoint (enter (Value.integer n ∷ method m ∷ []) w)
  request (watches_access f k) w = lj_set_field_access_watch (enter (field_of f k ∷ []) w)
  request (watches_modification f k) w =
      lj_set_field_modification_watch (enter (field_of f k ∷ []) w)
  request (returns_early t) w = lj_force_early_return_void (enter (object t ∷ []) w)
  request (returns_object t o) w =
      lj_force_early_return_object (enter (object_or_nil o ∷ object t ∷ []) w)
  request (returns_int t n) w =
      lj_force_early_return_int (enter (Value.integer n ∷ object t ∷ []) w)
  request (returns_boolean t b) w =
      lj_force_early_return_int (enter (Value.boolean b ∷ object t ∷ []) w)
  request (operates op m) w = operate op m w

  abbrev pub jvmti_request : Request → J → JvmtiError × J
  jvmti_request (sets_breakpoint m n) j = host.jvmti.set_breakpoint m n j
  jvmti_request (clears_breakpoint m n) j = host.jvmti.clear_breakpoint m n j
  jvmti_request (watches_access f k) j = host.jvmti.set_field_access_watch k f j
  jvmti_request (watches_modification f k) j = host.jvmti.set_field_modification_watch k f j
  jvmti_request (returns_early t) j = host.jvmti.force_early_return_void t j
  jvmti_request (returns_object t o) j = host.jvmti.force_early_return_object t o j
  jvmti_request (returns_int t n) j = host.jvmti.force_early_return_int t (narrow (2 ^ 32) n) j
  jvmti_request (returns_boolean t b) j =
      host.jvmti.force_early_return_int t (if b then pos 1 else pos 0) j
  jvmti_request (operates op m) j = jvmti_operation op m j

  checked-request :
      (r : Request) (k : Cmd J ℕ) (e : JvmtiError) (name : Option (Ptr × String)) (i j : J)
      (w : World J)
      → host.jvmti.get_error_name e i ≡ (name, j)
      → len (message_of host r e (errmsg name)) < 500
      → (v : World J) × (and_then
            (check_jvmti_error
              (file_of r)
              (line_of r)
              (function_of r)
              (record w { frame = left_on_stack r; lj_err = e; jvm = i }))
            (λ _. k)
          ≡ (if is_none_error e
              then k (record w { frame = left_on_stack r; lj_err = e; jvm = i })
              else raised
                  (reported host w.globals (left_on_stack r) (message_of host r e (errmsg name)))
                  v))
        × (v.jvm ≡ j)
  checked-request r k e name i j w named lt =
      checked-branches (file_of r) (line_of r) (function_of r) name j
        (record w { frame = left_on_stack r; lj_err = e; jvm = i }) k named lt

  -- The end of the functions that pop their arguments first, and of those that pop them last.
  abbrev done : Cmd J ℕ
  done u = ok 0 u

  abbrev pops : Cmd J ℕ
  pops u = ok 0 (record u { frame = drop 2 u.frame })

  -- The thirteen functions that make one call of JVMTI and have no result: setting and clearing a
  -- breakpoint, the two watches, the early return from a method with an object or null, with an
  -- integer or a boolean, or without a value, and entering, leaving, waiting on, notifying and
  -- destroying a raw monitor. Each makes its call with the arguments given, an integer narrowed to
  -- 32 bits; if JVMTI accepts, nothing is returned, and if not, and the message fits its buffer,
  -- the error is raised with the place in the C code, without a traceback where the arguments of
  -- an early return are still on the stack.
  pub request-branches :
      (r : Request) (e : JvmtiError) (name : Option (Ptr × String)) (i j : J) (w : World J)
      → jvmti_request r w.jvm ≡ (e, i)
      → host.jvmti.get_error_name e i ≡ (name, j)
      → len (message_of host r e (errmsg name)) < 500
      → (v : World J) × (request r w ≡ (
          if is_none_error e
          then ok 0 (record w { frame = []; lj_err = e; jvm = i })
          else raised
              (reported host w.globals (left_on_stack r) (message_of host r e (errmsg name)))
              v))
        × (v.jvm ≡ j)
  unfolding lj_set_breakpoint lj_clear_breakpoint lj_set_field_access_watch
      lj_set_field_modification_watch lj_force_early_return_void lj_force_early_return_object
      lj_force_early_return_int lj_destroy_raw_monitor lj_raw_monitor_enter lj_raw_monitor_exit
      lj_raw_monitor_wait lj_raw_monitor_notify lj_raw_monitor_notify_all
  request-branches (operates enters m) e name i j w h named lt =
      let (v, ends, same) = checked-request (operates enters m) done e name i j w named lt in
      (v, rw h ends, same)
  request-branches (operates (waits n) m) e name i j w h named lt =
      let (v, ends, same) = checked-request (operates (waits n) m) done e name i j w named lt in
      (v, rw h ends, same)
  request-branches (returns_object t none) e name i j w h named lt =
      let (v, ends, same) = checked-request (returns_object t none) pops e name i j w named lt in
      (v, rw h ends, same)
  request-branches (returns_object t (some o)) e name i j w h named lt =
      let (v, ends, same) =
        checked-request (returns_object t (some o)) pops e name i j w named lt in
      (v, rw h ends, same)
  request-branches (returns_int t n) e name i j w h named lt =
      let (v, ends, same) = checked-request (returns_int t n) pops e name i j w named lt in
      (v, rw h ends, same)
  request-branches (returns_boolean t b) e name i j w h named lt =
      let (v, ends, same) = checked-request (returns_boolean t b) pops e name i j w named lt in
      (v, rw h ends, same)
  request-branches r e name i j w h named lt =
      let (v, ends, same) = checked-request r done e name i j w named lt in (v, rw h ends, same)
