-- ===== src/Agent/VmInit.antt =====
-- yt.c: the events for the start and the end of the JVM, and the other entry points of the agent.
use yellow_tree.Common.{false, Option, some, List, [], ◌∷◌, String, ◌≡◌, refl, ℕ}
use yellow_tree.Common.Int.{ℤ, pos, negsuc}
use yellow_tree.Runtime.Value.{Ptr, JvmtiError, JValue, error_none, Value}
use yellow_tree.Runtime.Host.{Host}
use yellow_tree.Runtime.World.{World, Cmd, ok, pure, ◌>>=◌, ◌>>◌, print, assert}
use yellow_tree.Runtime.Calls.{jvmti_ignore, jni_get}
use yellow_tree.Agent.{check_agent_error}
use yellow_tree.LuaJava.{assert_some}
use yellow_tree.LuaInterface.Init.{Interpreter, lua_interface_init}
use yellow_tree.LuaInterface.Start.{lua_start_cmd}
use yellow_tree.Lj.Monitors.{enters, exits, waits, after_all}

-- The function that the new thread runs; `call_global` is the debugger's code.
unfoldable pub command_loop_thread :
    {J : Type 0} (call_global : String → List Value → World J → Option String × World J) (fuel : ℕ)
    → Cmd J (Unit {0})
command_loop_thread call_global fuel w = lua_start_cmd call_global fuel w.agent_options w

module _ {J : Type 0} where
  -- `cbVMDeath` and `Agent_OnUnload` do nothing.
  abbrev pub cb_vm_death : Cmd J (Unit {0})
  cb_vm_death = pure tt

  abbrev pub agent_on_unload : Cmd J (Unit {0})
  agent_on_unload = pure tt

  -- `assert(!"ERR: attach not supported")`
  abbrev pub agent_on_attach : Cmd J ℤ
  agent_on_attach = assert false >> pure (negsuc 0)

  -- `vprintf` of a text without arguments
  abbrev pub lj_print_message : String → Cmd J (Unit {0})
  lj_print_message = print

module _ {J : Type 0} ⦃host : Host J⦄ (lua : Interpreter J)
    -- JVMTI starts the thread, which runs `command_loop_thread`.
    (run_agent_thread : (thread : Ptr) → J → JvmtiError × J) where
  -- The result of the call is not assigned to `Gagent.jerr`.
  abbrev create_resume_monitor : Cmd J Ptr
  create_resume_monitor w =
      let (e, monitor, j) =
        host.jvmti.create_raw_monitor "yellow_tree_thread_resume_monitor" w.jvm in
      ok monitor (record w { jvm = j })

  abbrev new_command_thread : Cmd J Ptr
  new_command_thread = do
    found ← jni_get (host.jni.find_class "java/lang/Thread")
    thread_class ← assert_some found
    ctor ← jni_get (host.jni.get_method_id thread_class "<init>" "(Ljava/lang/String;)V")
    thread_ctor ← assert_some ctor
    text ← jni_get (host.jni.new_string_utf "Yellow Tree Command Interpreter")
    cmd_thread_name ← assert_some text
    thread ←
        jni_get
          (host.jni.new_object_a thread_class thread_ctor (JValue.l (some cmd_thread_name) ∷ []))
    assert_some thread

  -- The calls of JVMTI and the checks of a variable that none of them has written.
  abbrev wait_for_debugger : Ptr → Cmd J (Unit {0})
  wait_for_debugger thread_resume_monitor = do
    jvmti_ignore (host.jvmti.raw_monitor_enter thread_resume_monitor)
    check_agent_error
    jvmti_ignore (host.jvmti.raw_monitor_wait thread_resume_monitor (pos 0))
    check_agent_error
    jvmti_ignore (host.jvmti.raw_monitor_exit thread_resume_monitor)
    check_agent_error

  -- `cbVMInit`
  unfoldable pub cb_vm_init : Cmd J (Unit {0})
  cb_vm_init = do
    thread_resume_monitor ← create_resume_monitor
    check_agent_error
    lua_interface_init lua thread_resume_monitor
    lj_print_message "-------====---------\n"
    lj_print_message "Yellow Tree Debugger\n"
    lj_print_message "-------====---------\n"
    cmd_thread ← new_command_thread
    jvmti_ignore (run_agent_thread cmd_thread)
    check_agent_error
    wait_for_debugger thread_resume_monitor

  check_agent_error-none :
      (w : World J) → w.gagent_jerr ≡ error_none → check_agent_error w ≡ ok tt w
  check_agent_error-none w h = rw h refl

  -- After an agent that was loaded without an error, when lua_interface_init returns and JNI finds
  -- the class, its constructor, the text and the new thread, cbVMInit starts the command thread
  -- and then enters the raw monitor, waits and leaves it, in this order, and returns, whatever
  -- error codes JVMTI answers with: the checks test a variable that none of these calls has
  -- written.
  pub cb_vm_init-starts :
      (e : JvmtiError) (m klass ctor text thread : Ptr) (i j k l n : J) (w u : World J)
      → w.gagent_jerr ≡ error_none
      → u.gagent_jerr ≡ error_none
      → host.jvmti.create_raw_monitor "yellow_tree_thread_resume_monitor" w.jvm ≡ (e, m, i)
      → lua_interface_init lua m (record w { jvm = i }) ≡ ok tt u
      → host.jni.find_class "java/lang/Thread" u.jvm ≡ (some klass, j)
      → host.jni.get_method_id klass "<init>" "(Ljava/lang/String;)V" j ≡ (some ctor, k)
      → host.jni.new_string_utf "Yellow Tree Command Interpreter" k ≡ (some text, l)
      → host.jni.new_object_a klass ctor (JValue.l (some text) ∷ []) l ≡ (some thread, n)
      → (v : World J) × (cb_vm_init w ≡ ok tt v)
        × (v.globals ≡ u.globals)
        × (v.jvm ≡ after_all (enters ∷ waits (pos 0) ∷ exits ∷ []) m (run_agent_thread thread n).1)
  unfolding cb_vm_init
  cb_vm_init-starts e m klass ctor text thread i j k l n w u stale stale_later created ready found
        constructor named made =
      (
        record u {
          jvm = after_all (enters ∷ waits (pos 0) ∷ exits ∷ []) m (run_agent_thread thread n).1;
          printed =
              "-------====---------\n" ∷ "Yellow Tree Debugger\n" ∷ "-------====---------\n"
              ∷ u.printed;
        },
        rw (created, check_agent_error-none (record w { jvm = i }) stale)
            (rw ready (rw (found, constructor) (rw (named, made, stale_later) refl))),
        refl,
        refl,
      )
