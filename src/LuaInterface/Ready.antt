-- ===== src/LuaInterface/Ready.antt =====
-- What `lua_interface_init` and `lua_print_traceback` promise.
use yellow_tree.Common.{Option, none, some, [], ◌∷◌, ◌≡◌, refl, Bool-cases, inl, inr, true}
use yellow_tree.Runtime.Value.{Ptr, Value, Fields, put, monitor, Key, get}
use yellow_tree.Runtime.Host.{Host}
use yellow_tree.Runtime.World.{World, ok, and_then, ◌>>◌}
use yellow_tree.Runtime.Globals.{nil_if_none, unprotected, lua_setglobal}
use yellow_tree.Runtime.Stops.{Stops, returns, stops}
use yellow_tree.Runtime.Lookup.{get-put_name}
use yellow_tree.Bridge.{new_jmonitor}
use yellow_tree.Event.Setting.{Accepts}
use yellow_tree.LuaJava.Init.{after_init, lj_init_lem}
use yellow_tree.LuaInterface.Init.{
  Interpreter, Called, answered, failed, lua_interface_init, lua_remove, lua_getfield,
  created_or_stop, loaded_or_stop, name_monitor, create_monitor, connect,
}

module _ {J : Type 0} ⦃host : Host J⦄ (lua : Interpreter J) where
  -- The stack is empty again, and the global has a value.
  abbrev pub Ready : Unit {0} → World J → Type 0
  Ready a w =
      (w.frame ≡ []) × ((r : Value) × (get (Key.name "thread_resume_monitor") w.globals ≡ some r))

  after_call :
      (c : Called) (w : World J)
      → Stops Ready (
          and_then
            (created_or_stop lua c (record w { frame = Value.c_function "traceback" ∷ [] }))
            (λ _. lua_remove 2 >> lua_setglobal "thread_resume_monitor"))
  after_call (answered r) w = returns (refl, (r, get-put_name "thread_resume_monitor" r w.globals))
  after_call (failed message) w = stops

  name_monitor-Stops :
      (m : Ptr) (f t : Value) (w : World J)
      → Stops Ready
          (name_monitor lua m (record w { frame = f ∷ t ∷ Value.c_function "traceback" ∷ [] }))
  unfolding name_monitor new_jmonitor
  name_monitor-Stops m f t w =
      let c =
        lua.call_function f (monitor m ∷ [])
          (record w { frame = monitor m ∷ f ∷ Value.c_function "traceback" ∷ [] }) in
      after_call c.0 c.1

  after_field :
      (m : Ptr) (v : Value) (w : World J)
      → Stops Ready (
          and_then
            (unprotected
              (lua_getfield "create")
              (record w { frame = v ∷ Value.c_function "traceback" ∷ [] }))
            (λ _. name_monitor lua m))
  after_field m (Value.table t) w =
      name_monitor-Stops m (nil_if_none (get (Key.name "create") t)) (Value.table t) w
  after_field m _ w = stops

  after_load :
      (m : Ptr) (o : Option Value) (w : World J)
      → Stops Ready (
          and_then
            (loaded_or_stop lua o (record w { frame = Value.c_function "traceback" ∷ [] }))
            (λ _. lua_remove 1 >> create_monitor lua m))
  unfolding create_monitor
  after_load m none w = after_field m (nil_if_none (get (Key.name "jmonitor") w.globals)) w
  after_load m (some message) w = stops

  -- The state in which debuglib.lua is loaded.
  abbrev pub loading : World J → World J
  loading w =
      record (after_init (record w { frame = []; registry = []; globals = lua.open_libs })) {
        frame = Value.c_function "traceback" ∷ [];
      }

  -- When JVMTI accepts the call of lj_init, lua_interface_init either returns with an empty stack
  -- and a global thread_resume_monitor, or stops the process: whether the Lua state is made, the
  -- debugger loads, it leaves a table jmonitor or not, and the call of its entry create succeeds
  -- or fails. No Lua error gets out, and the behaviour is always defined.
  pub lua_interface_init-Stops :
      (acc : Accepts host) (m : Ptr) (w : World J) → Stops Ready (lua_interface_init lua m w)
  unfolding lua_interface_init connect
  lua_interface_init-Stops acc m w = elim (Bool-cases (lua.new_state w)) [
    | inl e ↦
        rw (e, lj_init_lem acc (record w { frame = []; registry = []; globals = lua.open_libs }))
          (let c = lua.run_chunk "require('debuglib')" (loading w) in after_load m c.0 c.1)
    | inr e ↦ rw e stops
  ]

  -- When there is memory for a Lua state, JVMTI accepts the call of lj_init, the debugger loads
  -- and leaves a table jmonitor with an entry create, and the call of that entry with the raw
  -- monitor answers, lua_interface_init returns with an empty stack, and the answer is the global
  -- thread_resume_monitor; the debugger is loaded after the C functions were registered.
  pub lua_interface_init-ready :
      (acc : Accepts host) (m : Ptr) (t : Fields) (create r : Value) (w u v : World J)
      → lua.new_state w ≡ true
      → lua.run_chunk "require('debuglib')" (loading w) ≡ (none, u)
      → get (Key.name "jmonitor") u.globals ≡ some (Value.table t)
      → get (Key.name "create") t ≡ some create
      → lua.call_function create
          (monitor m ∷ [])
          (record u { frame = monitor m ∷ create ∷ Value.c_function "traceback" ∷ [] })
        ≡ (answered r, v)
      → lua_interface_init lua m w
        ≡ ok tt
            (record v { frame = []; globals = put (Key.name "thread_resume_monitor") r v.globals })
  unfolding lua_interface_init connect create_monitor name_monitor new_jmonitor
  lua_interface_init-ready acc m t create r w u v state loaded table field called =
      rw (state, lj_init_lem acc (record w { frame = []; registry = []; globals = lua.open_libs }))
        (rw loaded (rw table (rw field (rw called refl))))
