-- ===== src/JniUtil.antt =====
-- jni_util.c and jni_util.h: freeing JVMTI buffers, switching events, and clearing or reporting a
-- pending Java exception.
use Prim.Native.String.{◌++◌}
use yellow_tree.Common.{ℕ, Option, none, some, List, [], ◌∷◌, String, erase, if◌then◌else◌}
use yellow_tree.Common.Int.{pos}
use yellow_tree.Runtime.Value.{Ptr, JvmtiError, error_none, EventMode, enable, disable, EventType}
use yellow_tree.Runtime.Host.{Host}
use yellow_tree.Runtime.World.{Cmd, ok, pure, ◌>>=◌, ◌>>◌, print}
use yellow_tree.Runtime.Calls.{jni_do}

module _ {J : Type 0} ⦃host : Host J⦄ where
  -- `(*jvmti)->Deallocate`, which gives an outstanding buffer back
  abbrev deallocate : Ptr → Cmd J JvmtiError
  deallocate p w =
      let (e, j) = host.jvmti.deallocate p w.jvm in
      ok e (record w { jvm = j; buffers = erase p w.buffers })

  -- the loop of `free_jvmti_refs`, on the arguments before the end mark `(void *)-1`
  unfoldable pub free_refs : JvmtiError → List (Option Ptr) → Cmd J JvmtiError
  free_refs jerr [] = pure jerr
  free_refs jerr (none ∷ s) =
      print "WARNING: null pointer passed to free_jvmti_refs()\n" >> free_refs jerr s
  free_refs jerr (some p ∷ s) = deallocate p >>= λ e. free_refs e s

  unfoldable pub free_jvmti_refs : List (Option Ptr) → Cmd J JvmtiError
  unfolding free_refs
  free_jvmti_refs refs = free_refs error_none refs

  -- `event_change`: the error code is its result
  abbrev pub event_change : EventMode → EventType → Option Ptr → J → JvmtiError × J
  event_change mode type thread = host.jvmti.set_event_notification_mode mode type thread

  -- EV_ENABLET and EV_DISABLET of lj_internal.h
  abbrev pub ev_enablet : EventType → Option Ptr → J → JvmtiError × J
  ev_enablet type thread = event_change enable type thread

  abbrev pub ev_disablet : EventType → Option Ptr → J → JvmtiError × J
  ev_disablet type thread = event_change disable type thread

  -- EXCEPTION_CLEAR
  unfoldable pub exception_clear : Cmd J (Unit {0})
  exception_clear w =
      if host.jni.exception_check w.jvm then jni_do host.jni.exception_clear w else ok tt w

  -- EXCEPTION_CHECK; on platforms other than Windows `DebugBreak` sends a signal that a running
  -- process ignores
  unfoldable pub exception_check : (file : String) (line : ℕ) → Cmd J (Unit {0})
  exception_check file line w =
      if host.jni.exception_check w.jvm
      then (do
        print ("EXCEPTION EXISTS at " ++ file ++ ":" ++ host.lua.format_d (pos line) ++ "\n")
        jni_do host.jni.exception_describe
        jni_do host.jni.exception_clear)
          w
      else ok tt w
