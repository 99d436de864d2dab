-- ===== src/Lj/Frames.antt =====
-- What `lj_get_stack_frame` answers. Lua counts frames from 1, JVMTI from 0.
use yellow_tree.Common.{ℕ, suc, ◌<◌, ◌^◌, Option, none, some, List, [], ◌∷◌, ◌≡◌, refl, arith}
use yellow_tree.Common.Int.{pos, narrow, ◌-ℤ◌}
use yellow_tree.Runtime.Value.{
  Value, empty, entry, Key, FrameInfo, JvmtiError, error_none, object, method, Ptr,
}
use yellow_tree.Runtime.Host.{Host}
use yellow_tree.Runtime.World.{World, ok, enter}
use yellow_tree.Bridge.{new_jmethod_id}
use yellow_tree.LuaJava.{check_jvmti_error}
use yellow_tree.Lj.StackFrame.{lj_get_stack_frame}

abbrev pub stored : Option FrameInfo → List FrameInfo
stored none = []
stored (some fi) = fi ∷ []

-- The table of a frame, or nil where there is no such frame.
abbrev pub frame_value : (depth : ℕ) → Option FrameInfo → Value
frame_value depth none = Value.nil
frame_value depth (some fi) = Value.table (
    entry (Key.name "location") (Value.integer fi.location) (
      entry (Key.name "method_id_raw") (method fi.method)
        (entry (Key.name "depth") (Value.integer (pos depth)) empty)))

pub narrow-small : (n : ℕ) → n < 2147483648 → narrow (2 ^ 32) (pos n) ≡ pos n
unfolding narrow
narrow-small n h = ground arith

pub pred_frame : (d : ℕ) → pos (suc d) -ℤ pos 1 ≡ pos d
unfolding ◌-ℤ◌
pred_frame d = ground arith

module _ {J : Type 0} ⦃host : Host J⦄ where
  -- For frame d + 1, as an int, lj_get_stack_frame asks JVMTI for the frame at depth d; where
  -- JVMTI answers, with one frame or with none, it returns one value: the location, the method and
  -- the frame's number in a table, or nil.
  pub stack_frame-answer :
      (t : Ptr) (d : ℕ) (o : Option FrameInfo) (j : J) (w : World J)
      → suc d < 2147483648
      → host.jvmti.get_stack_trace t (pos d) (pos 1) w.jvm ≡ (error_none, stored o, j)
      → lj_get_stack_frame (enter (Value.integer (pos (suc d)) ∷ object t ∷ []) w)
        ≡ ok 1 (record w { frame = frame_value (suc d) o ∷ []; lj_err = error_none; jvm = j })
  unfolding lj_get_stack_frame check_jvmti_error new_jmethod_id
  stack_frame-answer t d none j w lt h =
      rw (narrow-small (suc d) lt)
        (rw (pred_frame d) (rw (narrow-small d (omega arith)) (rw h refl)))
  stack_frame-answer t d (some fi) j w lt h =
      rw (narrow-small (suc d) lt)
        (rw (pred_frame d) (rw (narrow-small d (omega arith)) (rw h refl)))

  -- Where JVMTI stores no frame, lj_get_stack_frame returns nil whatever the error is, and raises
  -- none.
  pub stack_frame-no_error :
      (t : Ptr) (d : ℕ) (e : JvmtiError) (j : J) (w : World J)
      → suc d < 2147483648
      → host.jvmti.get_stack_trace t (pos d) (pos 1) w.jvm ≡ (e, [], j)
      → lj_get_stack_frame (enter (Value.integer (pos (suc d)) ∷ object t ∷ []) w)
        ≡ ok 1 (record w { frame = Value.nil ∷ []; lj_err = e; jvm = j })
  unfolding lj_get_stack_frame
  stack_frame-no_error t d e j w lt h =
      rw (narrow-small (suc d) lt)
        (rw (pred_frame d) (rw (narrow-small d (omega arith)) (rw h refl)))
