-- ===== src/Tests/Start.antt =====
-- The theorems on the start of the agent, on the command interpreter and on monitors, applied to the
-- small JVM.
use yellow_tree.Common.{true, none, some, [], ◌∷◌, List, Option, String, ◌≡◌, refl}
use yellow_tree.Common.Int.{pos}
use yellow_tree.Runtime.Value.{Value, error_none, enable, vm_init, vm_death, monitor, Ptr}
use yellow_tree.Runtime.World.{World, ok, enter}
use yellow_tree.Agent.{life_callbacks, Loader, agent_on_load, agent_on_load-ready}
use yellow_tree.LuaInterface.Start.{lua_start_cmd, lua_start_cmd-once}
use yellow_tree.Lj.RawMonitor.{lj_create_raw_monitor}
use yellow_tree.Lj.Monitors.{
  enters, exits, waits, jvmti_operation, operate_all, monitor_session-calls, Operation,
}
use yellow_tree.Tests.Demo.{Jvm, demo_host, start, set_mode, accept}
use yellow_tree.Tests.Events.{demo_accepts}

abbrev demo_loader : Loader Jvm
demo_loader = record {
  get_env = λ j. (true, j);
  get_version_number = λ j. (error_none, 66050, j);
  add_capabilities = accept;
}

agent_on_load-ready_example :
    (v : World Jvm) × (agent_on_load demo_loader (some "port=1") start ≡ ok (pos 0) v)
    × (v.jvmti_callbacks ≡ life_callbacks)
    × (v.agent_options ≡ "port=1")
    × (v.gagent_jerr ≡ error_none)
    × (v.jvm ≡ set_mode enable vm_death none (set_mode enable vm_init none start.jvm))
agent_on_load-ready_example =
    agent_on_load-ready demo_loader demo_accepts (some "port=1") start.jvm start.jvm start.jvm 66050
      start refl refl refl

-- A debugger whose interpreter fails.
abbrev failing_start : String → List Value → World Jvm → Option String × World Jvm
failing_start name args w = (some "stopped", w)

lua_start_cmd-once_example :
    lua_start_cmd failing_start 3 "opts" start
    ≡ ok tt (record start {
      frame = Value.c_function "traceback" ∷ [];
      printed =
          "Error during command interpreter: stopped\n" ∷ "Error setting options: stopped\n" ∷ [];
    })
lua_start_cmd-once_example =
    lua_start_cmd-once failing_start 2 "opts" (some "stopped") (some "stopped") start
      (record start { frame = [] })
      (record start {
        frame = Value.c_function "traceback" ∷ [];
        printed = "Error setting options: stopped\n" ∷ [];
      })
      refl refl

operations_accepted : (op : Operation) (m : Ptr) (j : Jvm) → (jvmti_operation op m j).0 ≡ error_none
operations_accepted enters m j = refl
operations_accepted _ m j = refl

monitor_session-calls_example :
    (u v : World Jvm) × (lj_create_raw_monitor (enter (Value.string "lock" ∷ []) start) ≡ ok 1 u)
    × (u.frame ≡ monitor 91 ∷ [])
    × (operate_all (enters ∷ waits (pos 10) ∷ exits ∷ []) 91 u ≡ ok 0 v)
    × (v.jvm ≡ start.jvm)
monitor_session-calls_example =
    monitor_session-calls operations_accepted "lock" 91 start.jvm
      (enters ∷ waits (pos 10) ∷ exits ∷ []) start refl
