-- ===== src/Tests/Init.antt =====
-- The theorems on the start of Lua and of the JVM, and on the two threads, applied to the small JVM.
use Prim.Native.String.{◌++◌}
use yellow_tree.Common.{ℕ, true, false, none, some, [], ◌∷◌, String, ◌≡◌, refl, if◌then◌else◌}
use yellow_tree.Runtime.Value.{
  Value, Fields, Key, get, put, error_none, other_error, enable, breakpoint, monitor,
}
use yellow_tree.Runtime.Host.{Host}
use yellow_tree.Runtime.World.{World, ok, undefined, enter}
use yellow_tree.Runtime.Globals.{is_among}
use yellow_tree.Runtime.Stops.{Stops}
use yellow_tree.Event.Reachable.{IsReachable}
use yellow_tree.LuaInterface.{is_string}
use yellow_tree.LuaJava.Init.{lj_init, exposed_names, lj_init-registers}
use yellow_tree.LuaInterface.Init.{
  Interpreter, answered, failed, lua_interface_init, lua_print_traceback,
}
use yellow_tree.LuaInterface.Ready.{
  Ready, loading, lua_interface_init-Stops, lua_interface_init-ready,
}
use yellow_tree.LuaInterface.Printing.{lua_print_traceback-branches}
use yellow_tree.Agent.VmInit.{cb_vm_init, cb_vm_init-starts}
use yellow_tree.Agent.Resume.{
  Owner, System, Step, Steps, InitPc, CommandPc, at_start, after_notify, g_enter, g_notify, step,
}
use yellow_tree.Agent.Resume.Interleaving.{resume-exclusive}
use yellow_tree.Agent.Resume.Return.{waiting_after, always_can_return, early_calls_lost}
use yellow_tree.Tests.Demo.{Jvm, demo_host, start, set_mode}
use yellow_tree.Tests.Events.{demo_accepts}

lj_init-registers_example :
    (v : World Jvm) × (lj_init start ≡ ok tt v)
    × (v.frame ≡ [])
    × (v.jvm ≡ set_mode enable breakpoint none start.jvm)
    × ((s : String)
        → get (Key.name s) v.globals
          ≡ (if is_among s exposed_names then some (Value.c_function s) else none))
    × IsReachable v
lj_init-registers_example = lj_init-registers demo_accepts start refl

-- The debugger's files, of which one is missing.
abbrev missing_debugger : Interpreter Jvm
missing_debugger = record {
  new_state = λ w. true;
  open_libs = Fields.empty;
  run_chunk = λ s w. (some (Value.string "module 'debuglib' not found"), w);
  call_function = λ f args w. (failed (Value.string "no function"), w);
}

lua_interface_init-Stops_example :
    Stops (Ready missing_debugger) (lua_interface_init missing_debugger 91 start)
lua_interface_init-Stops_example = lua_interface_init-Stops missing_debugger demo_accepts 91 start

abbrev jmonitor_table : Fields
jmonitor_table = put (Key.name "create") (Value.function 7) Fields.empty

-- A debugger that only has the table `jmonitor`, whose `create` answers with a table.
abbrev small_debugger : Interpreter Jvm
small_debugger = record {
  new_state = λ w. true;
  open_libs = Fields.empty;
  run_chunk = λ s w. (
    none,
    record w { globals = put (Key.name "jmonitor") (Value.table jmonitor_table) w.globals },
  );
  call_function = λ f args w. (answered (Value.table Fields.empty), w);
}

abbrev debugger_loaded : World Jvm
debugger_loaded = (small_debugger.run_chunk "require('debuglib')" (loading small_debugger start)).1

abbrev debugger_ready : World Jvm
debugger_ready = record debugger_loaded {
  frame = [];
  globals =
      put (Key.name "thread_resume_monitor") (Value.table Fields.empty) debugger_loaded.globals;
}

lua_interface_init-ready_example : lua_interface_init small_debugger 91 start ≡ ok tt debugger_ready
lua_interface_init-ready_example =
    lua_interface_init-ready small_debugger demo_accepts 91 jmonitor_table (Value.function 7)
      (Value.table Fields.empty) start debugger_loaded
      (record debugger_loaded {
        frame = monitor 91 ∷ Value.function 7 ∷ Value.c_function "traceback" ∷ [];
      })
      refl refl refl refl refl

-- Lua's debug library is loaded.
abbrev debug_loaded : World Jvm
debug_loaded = record start {
  globals =
      put (Key.name "debug")
        (Value.table (put (Key.name "traceback") (Value.c_function "db_traceback") Fields.empty))
        Fields.empty;
}

-- The small JVM, with every method found by name.
abbrev tracing_host : Host Jvm
tracing_host = record demo_host {
  jni = record demo_host.jni { get_method_id = λ k n s j. (some 8, j) };
}

lua_print_traceback-branches_example :
    ((message text : String)
      → Value.string message ≡ Value.string text
      → lua_print_traceback (enter (Value.string message ∷ []) debug_loaded)
        ≡ ok 0 (record debug_loaded {
          frame = Value.string message ∷ [];
          printed = ("<lua_print_traceback> " ++ text ++ "\n") ∷ [];
        }))
    × ((v : Value)
        → is_string (some v) ≡ false
        → (u : World Jvm) × (lua_print_traceback (enter (v ∷ []) debug_loaded) ≡ undefined u))
lua_print_traceback-branches_example = lua_print_traceback-branches debug_loaded refl refl

abbrev traced_loaded : World Jvm
traced_loaded =
    (small_debugger.run_chunk "require('debuglib')"
      (loading ⦃host = tracing_host⦄ small_debugger start)).1

abbrev traced_ready : World Jvm
traced_ready = record traced_loaded {
  frame = [];
  globals = put (Key.name "thread_resume_monitor") (Value.table Fields.empty) traced_loaded.globals;
}

cb_vm_init-starts_example :
    (v : World Jvm) × (cb_vm_init ⦃host = tracing_host⦄ small_debugger
        (λ t j. (other_error 99, j))
        start
      ≡ ok tt v)
    × (v.globals ≡ traced_ready.globals)
    × (v.jvm ≡ traced_ready.jvm)
cb_vm_init-starts_example =
    cb_vm_init-starts ⦃host = tracing_host⦄ small_debugger (λ t j. (other_error 99, j)) error_none
      91 1 8 4 5 start.jvm traced_ready.jvm traced_ready.jvm traced_ready.jvm traced_ready.jvm start
      traced_ready refl refl refl
      (lua_interface_init-ready ⦃host = tracing_host⦄ small_debugger
        (record { modes = λ m e t j. refl; tables = λ t j. refl }) 91 jmonitor_table
        (Value.function 7) (Value.table Fields.empty) start traced_loaded
        (record traced_loaded {
          frame = monitor 91 ∷ Value.function 7 ∷ Value.c_function "traceback" ∷ [];
        })
        refl refl refl refl refl)
      refl refl refl refl

-- `g` comes while the thread of cbVMInit waits.
abbrev g_while_waiting : Steps at_start (
    after_notify
      (record (waiting_after 1) { command = CommandPc.notifies; owner = Owner.command_thread }))
g_while_waiting = step (step (early_calls_lost 1).0 (g_enter refl refl)) (g_notify refl)

resume-exclusive_example :
    (false ≡ false)
    × (◌≡◌ {A = Owner} Owner.command_thread Owner.command_thread)
    × (◌≡◌ {A = ℕ} 1 1)
resume-exclusive_example = resume-exclusive g_while_waiting

always_can_return_example : (t : System) × Steps (waiting_after 1) t × (t.init ≡ InitPc.returned)
always_can_return_example = always_can_return (early_calls_lost 1).0

early_calls_lost_example :
    Steps at_start (waiting_after 2)
    × ((t : System) → Step (waiting_after 2) t → t.command ≡ CommandPc.notifies)
early_calls_lost_example = early_calls_lost 2
