-- ===== src/LuaJava/Errors.antt =====
-- What becomes of an error: lua_interface.c's `lua_interface_error` and lua_java.c's
-- `lj_check_jvmti_error`, on every branch.
use Prim.Native.String.{len}
use yellow_tree.Common.{
  Option, ℕ, suc, ◌-◌, List, some, get_elem?, length, ap, ◌∙◌, ◌<◌, ◌≤◌, leb, Bool, true, false,
  ◌&&◌, [], ◌∷◌, String, ◌≡◌, refl, arith, if◌then◌else◌,
}
use yellow_tree.Common.Int.{pos}
use yellow_tree.Runtime.Value.{Ptr, Value, Fields, is_none_error}
use yellow_tree.Runtime.Host.{Host}
use yellow_tree.Runtime.World.{World, Outcome, Cmd, and_then, ok, raised, undefined}
use yellow_tree.Runtime.Stack.{arg}
use yellow_tree.LuaInterface.{
  debug_in, traceback_in, lua_interface_error, is_string, is_table, is_function,
}
use yellow_tree.LuaJava.{check_jvmti_error, jvmti_message, errmsg, add_name}

-- The value at index 1 once a value is pushed on a stack.
abbrev pub bottom : Value → List Value → Value
bottom v [] = v
bottom v (u ∷ s) = bottom u s

get-bottom : (v : Value) (s : List Value) → get_elem? (v ∷ s) (length s) ≡ some (bottom v s)
get-bottom v [] = refl
get-bottom v (u ∷ s) = get-bottom u s

arg-bottom : (v : Value) (s : List Value) → arg 1 (v ∷ s) ≡ some (bottom v s)
arg-bottom v s =
    let e : suc (length s) - 1 ≡ length s = omega arith in ap (get_elem? (v ∷ s)) e ∙ get-bottom v s

-- The error value for a message: the handler looks at index 1. Where that is a text and the library
-- `debug` is loaded, it is Lua's traceback of that text; otherwise it is the message. The message
-- stands at index 1 on an empty stack alone.
abbrev pub reported : {J : Type 0} → Host J → (globals : Fields) → List Value → String → Value
reported host globals frame msg =
    if is_string (some (bottom (Value.string msg) frame))
      && is_table (debug_in globals)
      && is_function (traceback_in (debug_in globals))
    then host.lua.call_debug_traceback (traceback_in (debug_in globals))
        (bottom (Value.string msg) frame) (pos 2)
    else Value.string msg

fits : (n : ℕ) → n < 500 → leb 500 n ≡ false
fits n h = ground arith

module _ {J : Type 0} ⦃host : Host J⦄ where
  reports_at :
      (s t f : Bool) {A : Type 0} (msg : String) (w : World J)
      → len msg < 500
      → is_string (some (bottom (Value.string msg) w.frame)) ≡ s
      → is_table (debug_in w.globals) ≡ t
      → is_function (traceback_in (debug_in w.globals)) ≡ f
      → (v : World J) × (lua_interface_error {A = A} msg w
          ≡ raised (reported host w.globals w.frame msg) v)
        × (v.jvm ≡ w.jvm)
        × (v.buffers ≡ w.buffers)
  unfolding lua_interface_error
  reports_at false t f msg w lt hs ht hf = (
    record w { frame = Value.string msg ∷ w.frame },
    rw (fits (len msg) lt, arg-bottom (Value.string msg) w.frame, hs) refl,
    refl,
    refl,
  )
  reports_at true false f msg w lt hs ht hf = (
    record w { frame = Value.string msg ∷ w.frame },
    rw (fits (len msg) lt, arg-bottom (Value.string msg) w.frame, hs, ht) refl,
    refl,
    refl,
  )
  reports_at true true false msg w lt hs ht hf = (
    record w { frame = Value.string msg ∷ w.frame },
    rw (fits (len msg) lt, arg-bottom (Value.string msg) w.frame, hs, ht, hf) refl,
    refl,
    refl,
  )
  reports_at true true true msg w lt hs ht hf = (
    record w {
      frame = reported host w.globals w.frame msg ∷ debug_in w.globals ∷ Value.string msg ∷ w.frame;
    },
    rw (fits (len msg) lt, arg-bottom (Value.string msg) w.frame, hs, ht, hf) refl,
    refl,
    refl,
  )

  -- A message of fewer than 500 bytes is raised as a Lua error, with a traceback where Lua's debug
  -- library is loaded and the value at index 1 is a text; the JVM and the buffers are as they were.
  pub lua_interface_error-raises :
      {A : Type 0} (msg : String) (w : World J)
      → len msg < 500
      → (v : World J) × (lua_interface_error {A = A} msg w
          ≡ raised (reported host w.globals w.frame msg) v)
        × (v.jvm ≡ w.jvm)
        × (v.buffers ≡ w.buffers)
  lua_interface_error-raises msg w lt = reports_at _ _ _ msg w lt refl refl refl

  -- A message of 500 bytes or more overflows the buffer.
  pub lua_interface_error-overflows :
      {A : Type 0} (msg : String) (w : World J)
      → 500 ≤ len msg
      → lua_interface_error {A = A} msg w ≡ undefined w
  unfolding lua_interface_error
  lua_interface_error-overflows msg w h = ground arith

  -- With a message that fits its buffer, lj_check_jvmti_error does nothing after a call that
  -- succeeded, and after one that failed raises the message that names the place, the code and
  -- JVMTI's name of the error. Where index 1 of the stack holds a text, which is the message on an
  -- empty stack, and Lua has debug.traceback, the traceback of that text is raised in its place.
  -- The buffer of the error's name stays allocated.
  pub check_jvmti_error-branches :
      (file : String) (line : ℕ) (func : String) (name : Option (Ptr × String)) (j : J)
      (w : World J)
      → host.jvmti.get_error_name w.lj_err w.jvm ≡ (name, j)
      → len (jvmti_message host.lua.format_d file line func w.lj_err (errmsg name)) < 500
      → (v : World J) × (check_jvmti_error file line func w ≡ (
          if is_none_error w.lj_err
          then ok tt w
          else raised
              (reported host w.globals w.frame
                (jvmti_message host.lua.format_d file line func w.lj_err (errmsg name)))
              v))
        × (v.jvm ≡ j)
        × (v.buffers ≡ add_name name w.buffers)
  unfolding check_jvmti_error
  check_jvmti_error-branches file line func name j w h lt =
      let msg = jvmti_message host.lua.format_d file line func w.lj_err (errmsg name) in
      let (v, raises, same_jvm, same_buffers) =
        lua_interface_error-raises {A = Unit {0}} msg
          (record w { jvm = j; buffers = add_name name w.buffers }) lt in
      (v, rw (h, raises) refl, same_jvm, same_buffers)

  and_then-if :
      {A B : Type 0} (b : Bool) (o o' : Outcome J A) (k : A → Cmd J B)
      → and_then (if b then o else o') k ≡ (if b then and_then o k else and_then o' k)
  and_then-if true o o' k = refl
  and_then-if false o o' k = refl

  -- The last call of JVMTI in a function without results, the check of its error, and what follows.
  pub checked-branches :
      (file : String) (line : ℕ) (func : String) (name : Option (Ptr × String)) (j : J)
      (w : World J) (k : Cmd J ℕ)
      → host.jvmti.get_error_name w.lj_err w.jvm ≡ (name, j)
      → len (jvmti_message host.lua.format_d file line func w.lj_err (errmsg name)) < 500
      → (v : World J) × (and_then (check_jvmti_error file line func w) (λ _. k) ≡ (
          if is_none_error w.lj_err
          then k w
          else raised
              (reported host w.globals w.frame
                (jvmti_message host.lua.format_d file line func w.lj_err (errmsg name)))
              v))
        × (v.jvm ≡ j)
  checked-branches file line func name j w k named lt =
      let (v, checks, same_jvm, _) = check_jvmti_error-branches file line func name j w named lt in
      (v, rw checks (and_then-if (is_none_error w.lj_err) _ _ (λ _. k)), same_jvm)
