-- ===== src/Runtime/World.antt =====
-- The state that the C code reads and writes, and commands over it. A command returns, raises a
-- Lua error (a `longjmp` out of the C function), stops the process, or has no defined behaviour.
use yellow_tree.Common.{ℕ, Option, List, Bool, String, if◌then◌else◌, ◌∷◌}
use yellow_tree.Common.Int.{ℤ}
use yellow_tree.Runtime.Value.{Ptr, Value, Fields, Ref, JvmtiError, EventCallbacks}

-- `lj_jvmti_callbacks` of lua_jvmti_event.c: registry references, or `LUA_NOREF`
pub record CallbackRefs : Type 0 where
  pub cb_breakpoint_ref : Ref
  pub cb_method_entry_ref : Ref
  pub cb_method_exit_ref : Ref
  pub cb_single_step_ref : Ref
  pub cb_exception_throw_ref : Ref
  pub cb_exception_catch_ref : Ref
  pub cb_field_access_ref : Ref
  pub cb_field_modification_ref : Ref

pub record World (J : Type 0) : Type 0 where
  -- the JVM
  pub jvm : J
  -- the stack of the C function's `lua_State`, its top first
  pub frame : List Value
  -- `lj_err` and `lj_current_thread`
  pub lj_err : JvmtiError
  pub lj_current_thread : Option Ptr
  -- `agent_options` and `Gagent.jerr` of yt.c
  pub agent_options : String
  pub gagent_jerr : JvmtiError
  -- `jvmti_callbacks` of jni_util.c
  pub jvmti_callbacks : EventCallbacks
  -- `lj_jvmti_callbacks`
  pub callback_refs : CallbackRefs
  -- the global variables of Lua, and the functions that `luaL_ref` keeps in the registry, with their references
  pub globals : Fields
  pub registry : List (ℕ × Value)
  -- `class_instances_search_tag`
  pub search_tag : ℤ
  -- the JVMTI buffers that were handed out and not given back
  pub buffers : List Ptr
  -- what was printed, the latest first
  pub printed : List String

pub data Outcome (J : Type 0) (A : Type 0) : Type 0 where
  ok : A → World J → Outcome J A
  raised : Value → World J → Outcome J A
  aborted : World J → Outcome J A
  undefined : World J → Outcome J A

abbrev pub Cmd : Type 0 → Type 0 → Type 0
Cmd J A = World J → Outcome J A

module _ {J : Type 0} where
  abbrev pub pure : {A : Type 0} → A → Cmd J A
  pure a w = ok a w

  abbrev pub and_then : {A B : Type 0} → Outcome J A → (A → Cmd J B) → Outcome J B
  and_then (ok a w) k = k a w
  and_then (raised v w) k = raised v w
  and_then (aborted w) k = aborted w
  and_then (undefined w) k = undefined w

  infixl 5 ◌>>=◌ ◌>>◌
  abbrev pub ◌>>=◌ : {A B : Type 0} → Cmd J A → (A → Cmd J B) → Cmd J B
  ◌>>=◌ m k w = and_then (m w) k

  abbrev pub ◌>>◌ : {A B : Type 0} → Cmd J A → Cmd J B → Cmd J B
  ◌>>◌ m k w = and_then (m w) (λ _. k)

  abbrev pub gets : {A : Type 0} → (World J → A) → Cmd J A
  gets f w = ok (f w) w

  abbrev pub modify : (World J → World J) → Cmd J (Unit {0})
  modify f w = ok tt (f w)

  -- `assert` of the C library, with `NDEBUG` off
  abbrev pub assert : Bool → Cmd J (Unit {0})
  assert c w = if c then ok tt w else aborted w

  -- `printf` and `fprintf`
  abbrev pub print : String → Cmd J (Unit {0})
  print s w = ok tt (record w { printed = s ∷ w.printed })

  -- A C function is called from Lua with a stack of its own that holds the arguments.
  abbrev pub enter : List Value → World J → World J
  enter args w = record w { frame = args }

-- What a Lua function does when it is called in protected mode: for the function, its arguments and
-- the number of results wanted, the results and the state that it leaves. It may call any C function
-- of the agent. A parameter, since it runs the user's and the debugger's Lua code.
pub record Scripts (J : Type 0) : Type 0 where
  pub call : (f : Value) (args : List Value) (results : ℕ) → World J → List Value × World J
