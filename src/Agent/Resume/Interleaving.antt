-- ===== src/Agent/Resume/Interleaving.antt =====
-- All interleavings of the two threads at the monitor.
use yellow_tree.Common.{ℕ, Bool, true, false, ◌&&◌, ◌≡◌, refl, arith}
use yellow_tree.Agent.Resume.{
  InitPc, CommandPc, Owner, System, Step, Steps, at_start, run_agent_thread, init_enter, init_wait,
  init_wake, init_exit, g_enter, g_notify, g_exit, still, step,
}

-- Who is in the monitor, and what was heard, as the places of the two threads say.
abbrev pub owner_at : InitPc → CommandPc → Owner
owner_at InitPc.waits c = Owner.init_thread
owner_at InitPc.exits c = Owner.init_thread
owner_at i CommandPc.notifies = Owner.command_thread
owner_at i CommandPc.exits = Owner.command_thread
owner_at i c = Owner.nobody

abbrev pub init_inside : InitPc → Bool
init_inside InitPc.waits = true
init_inside InitPc.exits = true
init_inside _ = false

abbrev pub command_inside : CommandPc → Bool
command_inside CommandPc.notifies = true
command_inside CommandPc.exits = true
command_inside _ = false

-- The number of notifications that the thread has heard at its place.
abbrev pub heard_at : InitPc → ℕ
heard_at InitPc.notified = 1
heard_at InitPc.exits = 1
heard_at InitPc.returned = 1
heard_at _ = 0

-- The command thread runs once the other has started it.
abbrev pub started : InitPc → CommandPc → Bool
started InitPc.runs_agent_thread CommandPc.not_started = true
started InitPc.runs_agent_thread _ = false
started _ CommandPc.not_started = false
started _ _ = true

pub record Consistent (s : System) : Type 0 where
  pub owned : s.owner ≡ owner_at s.init s.command
  pub exclusive : (init_inside s.init && command_inside s.command) ≡ false
  pub hearing : s.heard ≡ heard_at s.init
  pub starting : started s.init s.command ≡ true

pub Step-Consistent : {s t : System} → Step s t → Consistent s → Consistent t
Step-Consistent (run_agent_thread a) c =
    let o = c.owned in
    let e = c.exclusive in
    let h = c.hearing in
    let r = c.starting in
    record {
      owned = ground arith;
      exclusive = ground arith;
      hearing = ground arith;
      starting = ground arith;
    }
Step-Consistent (init_enter a b) c =
    let o = c.owned in
    let e = c.exclusive in
    let h = c.hearing in
    let r = c.starting in
    record {
      owned = ground arith;
      exclusive = ground arith;
      hearing = ground arith;
      starting = ground arith;
    }
Step-Consistent (init_wait a) c =
    let o = c.owned in
    let e = c.exclusive in
    let h = c.hearing in
    let r = c.starting in
    record {
      owned = ground arith;
      exclusive = ground arith;
      hearing = ground arith;
      starting = ground arith;
    }
Step-Consistent (init_wake a b) c =
    let o = c.owned in
    let e = c.exclusive in
    let h = c.hearing in
    let r = c.starting in
    record {
      owned = ground arith;
      exclusive = ground arith;
      hearing = ground arith;
      starting = ground arith;
    }
Step-Consistent (init_exit a) c =
    let o = c.owned in
    let e = c.exclusive in
    let h = c.hearing in
    let r = c.starting in
    record {
      owned = ground arith;
      exclusive = ground arith;
      hearing = ground arith;
      starting = ground arith;
    }
Step-Consistent (g_enter a b) c =
    let o = c.owned in
    let e = c.exclusive in
    let h = c.hearing in
    let r = c.starting in
    record {
      owned = ground arith;
      exclusive = ground arith;
      hearing = ground arith;
      starting = ground arith;
    }
Step-Consistent (g_notify a) c =
    let o = c.owned in
    let e = c.exclusive in
    let h = c.hearing in
    let r = c.starting in
    record {
      owned = ground arith;
      exclusive = ground arith;
      hearing = ground arith;
      starting = ground arith;
    }
Step-Consistent (g_exit a) c =
    let o = c.owned in
    let e = c.exclusive in
    let h = c.hearing in
    let r = c.starting in
    record {
      owned = ground arith;
      exclusive = ground arith;
      hearing = ground arith;
      starting = ground arith;
    }

pub Steps-Consistent : {s : System} → Steps at_start s → Consistent s
Steps-Consistent still = record { owned = refl; exclusive = refl; hearing = refl; starting = refl }
Steps-Consistent (step r st) = Step-Consistent st (Steps-Consistent r)

-- In every interleaving of the thread of cbVMInit with any number of calls of the debugger command
-- g, the two threads are never in the monitor together and its owner is the thread that is inside;
-- the thread of cbVMInit has heard exactly one notification once it is out of the waiting set, and
-- none before.
pub resume-exclusive :
    {s : System}
    → Steps at_start s
    → ((init_inside s.init && command_inside s.command) ≡ false)
      × (s.owner ≡ owner_at s.init s.command)
      × (s.heard ≡ heard_at s.init)
resume-exclusive r = let k = Steps-Consistent r in (k.exclusive, k.owned, k.hearing)
