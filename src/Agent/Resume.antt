-- ===== src/Agent/Resume.antt =====
-- yt.c and java_bridge/jmonitor.lua: two threads at the monitor `thread_resume_monitor`. The thread
-- of cbVMInit starts the command thread, enters the monitor, waits and leaves it; the command `g`
-- of the debugger, when no thread is being debugged, enters it, notifies and leaves it, any number
-- of times. The calls of one thread come in the order of the code, those of the two threads in
-- any order.
pub mod Interleaving
pub mod Return
use yellow_tree.Common.{ℕ, suc, Bool, true, false, ◌&&◌, ◌≡◌, arith}

-- What the thread of cbVMInit does next.
pub data InitPc : Type 0 where
  runs_agent_thread enters waits : InitPc
  -- in the monitor's set of waiting threads, and out of it but not yet in the monitor
  waiting notified : InitPc
  exits returned : InitPc

-- What the command thread does next; `prompt` is anywhere outside the monitor.
pub data CommandPc : Type 0 where
  not_started prompt notifies exits : CommandPc

-- The thread that is in the monitor.
pub data Owner : Type 0 where
  nobody init_thread command_thread : Owner

-- The two numbers count the notifications that found the thread waiting, and the others; the code
-- does not keep them.
pub record System : Type 0 where
  pub owner : Owner
  pub init : InitPc
  pub command : CommandPc
  pub heard : ℕ
  pub unheard : ℕ

-- Whether a notification finds the thread in the set; and where it is after it.
abbrev pub is_waiting : InitPc → Bool
is_waiting InitPc.waiting = true
is_waiting _ = false

abbrev pub after_notify : System → System
after_notify s = elim s.init [
  | InitPc.waiting ↦ record s {
    init = InitPc.notified;
    command = CommandPc.exits;
    heard = suc s.heard;
  }
  | _ ↦ record s { command = CommandPc.exits; unheard = suc s.unheard }
]

-- `RawMonitorEnter` and the return of `RawMonitorWait` need that nobody is in the monitor.
pub data Step (s : System) : System → Type 0 where
  run_agent_thread :
      s.init ≡ InitPc.runs_agent_thread
      → Step s (record s { init = InitPc.enters; command = CommandPc.prompt })
  init_enter :
      s.init ≡ InitPc.enters
      → s.owner ≡ Owner.nobody
      → Step s (record s { init = InitPc.waits; owner = Owner.init_thread })
  init_wait :
      s.init ≡ InitPc.waits → Step s (record s { init = InitPc.waiting; owner = Owner.nobody })
  init_wake :
      s.init ≡ InitPc.notified
      → s.owner ≡ Owner.nobody
      → Step s (record s { init = InitPc.exits; owner = Owner.init_thread })
  init_exit :
      s.init ≡ InitPc.exits → Step s (record s { init = InitPc.returned; owner = Owner.nobody })
  g_enter :
      s.command ≡ CommandPc.prompt
      → s.owner ≡ Owner.nobody
      → Step s (record s { command = CommandPc.notifies; owner = Owner.command_thread })
  g_notify : s.command ≡ CommandPc.notifies → Step s (after_notify s)
  g_exit :
      s.command ≡ CommandPc.exits
      → Step s (record s { command = CommandPc.prompt; owner = Owner.nobody })

abbrev pub at_start : System
at_start = record {
  owner = Owner.nobody;
  init = InitPc.runs_agent_thread;
  command = CommandPc.not_started;
  heard = 0;
  unheard = 0;
}

-- `to s t`: the threads come from `s` to `t`.
pub data Steps (s : System) : System → Type 0 where
  still : Steps s s
  step : {t u : System} → Steps s t → Step t u → Steps s u
