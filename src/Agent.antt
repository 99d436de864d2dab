-- ===== src/Agent.antt =====
-- yt.c: how the agent starts when the JVM loads it.
pub mod VmInit
pub mod Resume
use Prim.Native.String.{◌++◌}
use yellow_tree.Common.{
  ℕ, ◌/◌, ◌%◌, ◌^◌, Bool, true, false, none, some, Option, String, if◌then◌else◌, ◌≡◌, refl, ◌∷◌,
}
use yellow_tree.Common.Int.{ℤ, pos, negsuc}
use yellow_tree.Runtime.Value.{
  Ptr, EventCallbacks, Handler, JvmtiError, error_none, is_none_error, enable, vm_init, vm_death,
}
use yellow_tree.Runtime.Host.{Host}
use yellow_tree.Runtime.World.{World, Cmd, ok, aborted, pure, ◌>>=◌, ◌>>◌, modify, print}
use yellow_tree.Runtime.Calls.{jni_get, jvmti_ignore}
use yellow_tree.JniUtil.{event_change}
use yellow_tree.Event.{loaded_callbacks}
use yellow_tree.Event.Setting.{Accepts}
use yellow_tree.LuaJava.{error_code}

-- What the JVM offers to a library that it loads, besides JVMTI's other functions. The capabilities
-- asked for are a constant of the source.
pub record Loader (J : Type 0) : Type 0 where
  pub get_env : J → Bool × J
  pub get_version_number : J → JvmtiError × ℕ × J
  pub add_capabilities : J → JvmtiError × J

-- the three parts of JVMTI's version number
abbrev version_text : (d : ℤ → String) → ℕ → String
version_text d v =
    "JVMTI version "
    ++ d (pos (v / 2 ^ 16 % 2 ^ 12))
    ++ "."
    ++ d (pos (v / 2 ^ 8 % 2 ^ 8))
    ++ "."
    ++ d (pos (v % 2 ^ 8))
    ++ "\n"

-- `options ? strdup(options) : ""`
abbrev pub options_or_empty : Option String → String
options_or_empty none = ""
options_or_empty (some options) = options

-- What the table is to hold when the JVM is told of it.
abbrev pub life_callbacks : EventCallbacks
life_callbacks = record {
  on_vm_init = some Handler.cb_vm_init;
  on_vm_death = some Handler.cb_vm_death;
  on_breakpoint = none;
  on_method_entry = none;
  on_method_exit = none;
  on_single_step = none;
  on_exception = none;
  on_field_access = none;
  on_field_modification = none;
}

module _ {J : Type 0} ⦃host : Host J⦄ where
  -- A name that JVMTI has is printed, and its buffer is given back.
  abbrev print_name : Option (Ptr × String) → Cmd J (Unit {0})
  print_name none = pure tt
  print_name (some (p, errmsg)) = print (": " ++ errmsg) >> jvmti_ignore (host.jvmti.deallocate p)

  -- `check_jvmti_error` of yt.c, which stops the process on an error
  abbrev stop_on_error : JvmtiError → Cmd J (Unit {0})
  stop_on_error e w =
      if is_none_error e
      then ok tt w
      else (do
        print ("Error " ++ host.lua.format_d (pos (error_code e)) ++ " from JVMTI")
        name ← jni_get (host.jvmti.get_error_name e)
        print_name name
        print "\n"
        (λ v. aborted v))
          w

  -- `check_jvmti_error(Gagent.jvmti, Gagent.jerr)`
  abbrev pub check_agent_error : Cmd J (Unit {0})
  check_agent_error w = stop_on_error w.gagent_jerr w

  -- `Gagent.jerr = f(...)` and the check
  abbrev checked : (J → JvmtiError × J) → Cmd J (Unit {0})
  checked f w = let (e, j) = f w.jvm in check_agent_error (record w { jvm = j; gagent_jerr = e })

  abbrev install_table : Cmd J (Unit {0})
  install_table w = checked (host.jvmti.set_event_callbacks w.jvmti_callbacks) w

  module _ (loader : Loader J) where
    abbrev get_version : Cmd J ℕ
    get_version w =
        let (e, version, j) = loader.get_version_number w.jvm in
        ok version (record w { jvm = j; gagent_jerr = e })

    abbrev with_env : Bool → Cmd J ℤ
    with_env false = print "Failed to get JVMTI env\n" >> pure (negsuc 0)
    with_env true = do
      version ← get_version
      check_agent_error
      print (version_text host.lua.format_d version)
      checked loader.add_capabilities
      install_table
      checked (event_change enable vm_init none)
      checked (event_change enable vm_death none)
      pure (pos 0)

    -- `Agent_OnLoad`
    unfoldable pub agent_on_load : Option String → Cmd J ℤ
    agent_on_load options = do
      modify (λ w. record w {
        agent_options = options_or_empty options;
        jvmti_callbacks = loaded_callbacks;
      })
      found ← jni_get loader.get_env
      with_env found

    -- When the JVM gives its environment and JVMTI accepts every call, Agent_OnLoad returns
    -- JNI_OK; the table of callbacks holds cbVMInit for the start and cbVMDeath for the end of the
    -- JVM and nothing else, it is installed, and only then both events are enabled, for all
    -- threads.
    pub agent_on_load-ready :
        (acc : Accepts host) (options : Option String) (i j k : J) (version : ℕ) (w : World J)
        → loader.get_env w.jvm ≡ (true, i)
        → loader.get_version_number i ≡ (error_none, version, j)
        → loader.add_capabilities j ≡ (error_none, k)
        → (v : World J) × (agent_on_load options w ≡ ok (pos 0) v)
          × (v.jvmti_callbacks ≡ life_callbacks)
          × (v.agent_options ≡ options_or_empty options)
          × (v.gagent_jerr ≡ error_none)
          × (v.jvm
              ≡ (host.jvmti.set_event_notification_mode enable vm_death none
                  (host.jvmti.set_event_notification_mode enable vm_init none
                    (host.jvmti.set_event_callbacks life_callbacks k).1).1).1)
    unfolding agent_on_load
    agent_on_load-ready acc options i j k version w env versioned capable = (
      record w {
        agent_options = options_or_empty options;
        jvmti_callbacks = loaded_callbacks;
        gagent_jerr = error_none;
        printed = version_text host.lua.format_d version ∷ w.printed;
        jvm =
            (host.jvmti.set_event_notification_mode enable vm_death none
              (host.jvmti.set_event_notification_mode enable vm_init none
                (host.jvmti.set_event_callbacks loaded_callbacks k).1).1).1;
      },
      rw env (
          rw versioned (
            rw capable (
              rw (acc.tables loaded_callbacks k) (
                rw
                  (acc.modes enable vm_init none
                    (host.jvmti.set_event_callbacks loaded_callbacks k).1)
                  (rw
                    (acc.modes enable vm_death none
                      (host.jvmti.set_event_notification_mode enable vm_init none
                        (host.jvmti.set_event_callbacks loaded_callbacks k).1).1)
                    refl))))),
      refl,
      refl,
      refl,
      refl,
    )
