-- ===== src/Lj/StackFrame.antt =====
-- lua_java/lj_stack_frame.c: the frames of a thread.
use yellow_tree.Common.{ℕ, Bool, true, false, [], ◌∷◌, List, if◌then◌else◌, ◌^◌}
use yellow_tree.Common.Int.{ℤ, pos, narrow, ◌-ℤ◌}
use yellow_tree.Runtime.Value.{Value, FrameInfo, JvmtiError, illegal_argument}
use yellow_tree.Runtime.Host.{Host}
use yellow_tree.Runtime.World.{Cmd, pure, ◌>>=◌, ◌>>◌, assert}
use yellow_tree.Runtime.Stack.{
  push, lua_pop, lua_newtable, lua_setfield, check_object, check_integer,
}
use yellow_tree.Runtime.Calls.{jvmti_get}
use yellow_tree.Bridge.{new_jmethod_id}
use yellow_tree.LuaJava.{check_jvmti_error}

abbrev pub is_illegal_argument : JvmtiError → Bool
is_illegal_argument illegal_argument = true
is_illegal_argument _ = false

abbrev pub is_nil : List FrameInfo → Bool
is_nil [] = true
is_nil (_ ∷ _) = false

module _ {J : Type 0} ⦃host : Host J⦄ where
  unfoldable pub lj_get_frame_count : Cmd J ℕ
  lj_get_frame_count = do
    thread ← check_object 1
    lua_pop 1
    count ← jvmti_get (host.jvmti.get_frame_count thread)
    check_jvmti_error "lua_java/lj_stack_frame.c" 12 "lj_get_frame_count"
    push (Value.integer count)
    pure 1

  -- The frames that `GetStackTrace` stored, at most one; the code looks at their number `count`.
  -- nil where the error is an illegal argument or no frame was stored; otherwise the table.
  abbrev pub frame_table : (frame_num : ℤ) → List FrameInfo → Cmd J ℕ
  frame_table frame_num [] w = (push Value.nil >> pure 1) w
  frame_table frame_num (fi ∷ more) w =
      if is_illegal_argument w.lj_err
      then (push Value.nil >> pure 1) w
      else (do
        check_jvmti_error "lua_java/lj_stack_frame.c" 32 "lj_get_stack_frame"
        assert (is_nil more)
        lua_newtable
        push (Value.integer fi.location)
        lua_setfield "location"
        new_jmethod_id fi.method
        lua_setfield "method_id_raw"
        push (Value.integer frame_num)
        lua_setfield "depth"
        pure 1)
          w

  unfoldable pub lj_get_stack_frame : Cmd J ℕ
  lj_get_stack_frame = do
    thread ← check_object 1
    n ← check_integer 2
    let frame_num = narrow (2 ^ 32) n
    lua_pop 2
    frames ←
        jvmti_get (host.jvmti.get_stack_trace thread (narrow (2 ^ 32) (frame_num -ℤ pos 1)) (pos 1))
    frame_table frame_num frames
