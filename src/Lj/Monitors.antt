-- ===== src/Lj/Monitors.antt =====
-- Sequences of operations on a raw monitor, as Lua makes them and as JVMTI sees them.
use yellow_tree.Common.{ℕ, String, List, [], ◌∷◌, ◌≡◌, refl}
use yellow_tree.Common.Int.{ℤ}
use yellow_tree.Runtime.Value.{Value, Ptr, JvmtiError, error_none, monitor}
use yellow_tree.Runtime.Host.{Host}
use yellow_tree.Runtime.World.{World, Outcome, Cmd, ok, enter, and_then}
use yellow_tree.Bridge.{new_jmonitor}
use yellow_tree.LuaJava.{check_jvmti_error}
use yellow_tree.Lj.RawMonitor.{
  lj_create_raw_monitor, lj_destroy_raw_monitor, lj_raw_monitor_enter, lj_raw_monitor_exit,
  lj_raw_monitor_wait, lj_raw_monitor_notify, lj_raw_monitor_notify_all,
}

pub data Operation : Type 0 where
  enters exits notifies notifies_all destroys : Operation
  waits : ℤ → Operation

module _ {J : Type 0} ⦃host : Host J⦄ where
  -- The C function that Lua calls for an operation, and the function of JVMTI.
  abbrev pub operate : Operation → Ptr → Cmd J ℕ
  operate enters m w = lj_raw_monitor_enter (enter (monitor m ∷ []) w)
  operate exits m w = lj_raw_monitor_exit (enter (monitor m ∷ []) w)
  operate notifies m w = lj_raw_monitor_notify (enter (monitor m ∷ []) w)
  operate notifies_all m w = lj_raw_monitor_notify_all (enter (monitor m ∷ []) w)
  operate destroys m w = lj_destroy_raw_monitor (enter (monitor m ∷ []) w)
  operate (waits n) m w = lj_raw_monitor_wait (enter (Value.integer n ∷ monitor m ∷ []) w)

  abbrev pub jvmti_operation : Operation → Ptr → J → JvmtiError × J
  jvmti_operation enters m j = host.jvmti.raw_monitor_enter m j
  jvmti_operation exits m j = host.jvmti.raw_monitor_exit m j
  jvmti_operation notifies m j = host.jvmti.raw_monitor_notify m j
  jvmti_operation notifies_all m j = host.jvmti.raw_monitor_notify_all m j
  jvmti_operation destroys m j = host.jvmti.destroy_raw_monitor m j
  jvmti_operation (waits n) m j = host.jvmti.raw_monitor_wait m n j

  abbrev pub operate_all : List Operation → Ptr → World J → Outcome J ℕ
  operate_all [] m w = ok 0 w
  operate_all (op ∷ ops) m w = and_then (operate op m w) (λ _. operate_all ops m)

  abbrev pub after_all : List Operation → Ptr → J → J
  after_all [] m j = j
  after_all (op ∷ ops) m j = after_all ops m (jvmti_operation op m j).1

  module _
      (accepts : (op : Operation) (m : Ptr) (j : J) → (jvmti_operation op m j).0 ≡ error_none) where
    operate-once :
        (op : Operation) (m : Ptr) (w : World J)
        → operate op m w
          ≡ ok 0
              (record w { frame = []; lj_err = error_none; jvm = (jvmti_operation op m w.jvm).1 })
    unfolding lj_raw_monitor_enter lj_raw_monitor_exit lj_raw_monitor_notify
        lj_raw_monitor_notify_all lj_destroy_raw_monitor lj_raw_monitor_wait check_jvmti_error
    operate-once enters m w = rw (accepts enters m w.jvm) refl
    operate-once exits m w = rw (accepts exits m w.jvm) refl
    operate-once notifies m w = rw (accepts notifies m w.jvm) refl
    operate-once notifies_all m w = rw (accepts notifies_all m w.jvm) refl
    operate-once destroys m w = rw (accepts destroys m w.jvm) refl
    operate-once (waits n) m w = rw (accepts (waits n) m w.jvm) refl

    operate_all-calls :
        (ops : List Operation) (m : Ptr) (w : World J)
        → (v : World J) × (operate_all ops m w ≡ ok 0 v) × (v.jvm ≡ after_all ops m w.jvm)
    operate_all-calls [] m w = (w, refl, refl)
    operate_all-calls (op ∷ ops) m w =
        let (v, runs, ends) =
          operate_all-calls ops m
            (record w { frame = []; lj_err = error_none; jvm = (jvmti_operation op m w.jvm).1 }) in
        (v, rw (operate-once op m w) runs, ends)

    -- Lua creates a raw monitor and makes any sequence of operations on the value it gets: enter,
    -- exit, wait, notify, notify all, destroy. Where JVMTI accepts the calls, all return, and
    -- JVMTI sees the same operations in that order, on the monitor that it created.
    pub monitor_session-calls :
        (name : String) (m : Ptr) (j : J) (ops : List Operation) (w : World J)
        → host.jvmti.create_raw_monitor name w.jvm ≡ (error_none, m, j)
        → (u v : World J) × (lj_create_raw_monitor (enter (Value.string name ∷ []) w) ≡ ok 1 u)
          × (u.frame ≡ monitor m ∷ [])
          × (operate_all ops m u ≡ ok 0 v)
          × (v.jvm ≡ after_all ops m j)
    unfolding lj_create_raw_monitor check_jvmti_error new_jmonitor
    monitor_session-calls name m j ops w h =
        let u = record w { frame = monitor m ∷ []; lj_err = error_none; jvm = j } in
        let (v, runs, ends) = operate_all-calls ops m u in (u, v, rw h refl, refl, runs, ends)
