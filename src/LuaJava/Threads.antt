-- ===== src/LuaJava/Threads.antt =====
-- The table of all threads.
use yellow_tree.Common.{ℕ, ◌+◌, some, List, [], ◌∷◌, ◌≡◌, refl, get_elem?}
use yellow_tree.Runtime.Value.{Value, Ptr, error_none, Fields, empty, index, get, object}
use yellow_tree.Runtime.Host.{Host}
use yellow_tree.Runtime.World.{World, ok, enter}
use yellow_tree.Bridge.{new_jobject}
use yellow_tree.JniUtil.{free_jvmti_refs}
use yellow_tree.LuaJava.{check_jvmti_error}
use yellow_tree.LuaJava.Thread.{threads_loop, lj_get_all_threads}
use yellow_tree.Lj.Tables.{rows, ==_self}
use yellow_tree.Lj.Members.{values, value_at, get-values}

module _ {J : Type 0} ⦃host : Host J⦄ where
  threads_loop-rows :
      (i : ℕ) (threads : List Ptr) (t : Fields) (rest : List Value) (w : World J)
      → threads_loop i threads (record w { frame = Value.table t ∷ rest })
        ≡ ok tt (record w { frame = Value.table (rows i (values object threads) t) ∷ rest })
  unfolding threads_loop new_jobject
  threads_loop-rows i [] t rest w = refl
  threads_loop-rows i (thread ∷ threads) t rest w = threads_loop-rows (i + 1) threads _ rest w

  -- When JVMTI answers with the threads, lj_get_all_threads returns one value, a table that holds
  -- thread k at k + 1 and nothing beyond the last; no buffer stays allocated.
  pub all_threads_table :
      (p : Ptr) (threads : List Ptr) (j : J) (k : ℕ) (w : World J)
      → host.jvmti.get_all_threads w.jvm
        ≡ (error_none, record { at = some p; contents = threads }, j)
      → (t : Fields) × (v : World J) × (lj_get_all_threads (enter [] w) ≡ ok 1 v)
        × (v.frame ≡ Value.table t ∷ [])
        × (v.buffers ≡ w.buffers)
        × (get (index (k + 1)) t ≡ value_at object (get_elem? threads k))
  unfolding lj_get_all_threads check_jvmti_error free_jvmti_refs
  all_threads_table p threads j k w h = (
    rows 0 (values object threads) empty,
    record w {
      frame = Value.table (rows 0 (values object threads) empty) ∷ [];
      lj_err = error_none;
      jvm = (host.jvmti.deallocate p j).1;
    },
    rw h (
        rw
          (threads_loop-rows 0 threads empty []
            (record w { jvm = j; lj_err = error_none; buffers = p ∷ w.buffers }))
          (rw (==_self p) refl)),
    refl,
    refl,
    get-values _ threads k,
  )
