-- ===== src/Tests/Results.antt =====
-- The theorems on results and on ranges, applied to the small JVM.
use yellow_tree.Common.{length, arith, ℕ, ◌≤◌, some, List, [], ◌∷◌, length, ◌≡◌, refl}
use yellow_tree.Common.Int.{pos, negsuc, narrow}
use yellow_tree.Runtime.Value.{Value, JValue}
use yellow_tree.Runtime.World.{World, Cmd, ok, enter}
use yellow_tree.LuaJava.Call.{arguments_loop}
use yellow_tree.Results.Commands.{command_of}
use yellow_tree.Results.Registered.{registered-results}
use yellow_tree.Results.Ranges.{IsArgument, jni_values-InRange}
use yellow_tree.Results.Narrowing.{byte}
use yellow_tree.Tests.Demo.{Jvm, demo_host, start}

registered-results_example :
    (m : Cmd Jvm ℕ) × (command_of "lj_get_frame_count" ≡ some m)
    × ((args : List Value) (w v : World Jvm) (n : ℕ)
        → m (enter args w) ≡ ok n v
        → (n ≤ 1) × (n ≤ length v.frame))
registered-results_example = registered-results "lj_get_frame_count" refl

-- One argument of a method, a byte of 200, on the stack.
abbrev one_byte : World Jvm
one_byte = enter (Value.integer (pos 200) ∷ Value.string "B" ∷ []) start

byte_wraps : arguments_loop 0 1 1 one_byte ≡ ok (JValue.b (negsuc 55) ∷ []) one_byte
unfolding arguments_loop narrow
byte_wraps = refl

jni_values-InRange_example :
    (length (JValue.b (negsuc 55) ∷ []) ≡ 1)
    × IsArgument demo_host byte 0 1 one_byte.frame (JValue.b (negsuc 55) ∷ [])
jni_values-InRange_example =
    jni_values-InRange byte 0 1 1 0 (JValue.b (negsuc 55) ∷ []) one_byte one_byte (omega arith) refl
      byte_wraps
