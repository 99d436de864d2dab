-- ===== src/Tests/Errors.antt =====
-- The theorems on errors, applied to the small JVM and to one in which nothing succeeds.
use yellow_tree.Common.{none, [], ◌∷◌, ◌≡◌, refl, arith, some}
use yellow_tree.Common.Int.{pos}
use yellow_tree.Runtime.Value.{Value, empty, other_error, method}
use yellow_tree.Runtime.World.{World, raised, undefined, enter}
use yellow_tree.Runtime.Host.{Host}
use yellow_tree.LuaJava.{check_jvmti_error}
use yellow_tree.LuaJava.Errors.{check_jvmti_error-branches}
use yellow_tree.Lj.Requests.{sets_breakpoint, request, request-branches}
use yellow_tree.Lj.Method.{lj_get_line_number_table}
use yellow_tree.Lj.Members.{line_table-fault}
use yellow_tree.Tests.Demo.{Jvm, demo_host, start}

abbrev failing_host : Host Jvm
failing_host = record demo_host {
  jvmti = record demo_host.jvmti {
    set_breakpoint = λ m n j. (other_error 24, j);
    clear_breakpoint = λ m n j. (other_error 24, j);
    get_stack_trace = λ t n m j. (other_error 15, [], j);
    get_line_number_table = λ m j. (other_error 23, none, j);
  };
  jni = record demo_host.jni { find_class = λ s j. (none, j) };
}

check_jvmti_error-branches_example :
    (v : World Jvm) × (check_jvmti_error ⦃host = failing_host⦄ "lua_java.c" 106 "lj_set_breakpoint"
        (record start { lj_err = other_error 24 })
      ≡ raised (Value.string "[lua_java.c:1:lj_set_breakpoint] Error 1 from JVMTI: JVMTI_ERROR") v)
    × (v.jvm ≡ start.jvm)
    × (v.buffers ≡ 115 ∷ [])
check_jvmti_error-branches_example =
    check_jvmti_error-branches ⦃host = failing_host⦄ "lua_java.c" 106 "lj_set_breakpoint"
      (some (115, "JVMTI_ERROR")) start.jvm (record start { lj_err = other_error 24 }) refl
      (omega arith)

request-branches_example :
    (v : World Jvm) × (request ⦃host = failing_host⦄ (sets_breakpoint 41 (pos 4)) start
      ≡ raised (Value.string "[lua_java.c:1:lj_set_breakpoint] Error 1 from JVMTI: JVMTI_ERROR") v)
    × (v.jvm ≡ start.jvm)
request-branches_example =
    request-branches ⦃host = failing_host⦄ (sets_breakpoint 41 (pos 4)) (other_error 24)
      (some (115, "JVMTI_ERROR")) start.jvm start.jvm start refl refl (omega arith)

line_table-fault_example :
    (v : World Jvm) × (lj_get_line_number_table ⦃host = failing_host⦄ (enter (method 41 ∷ []) start)
      ≡ undefined (record start {
        frame = Value.table empty ∷ Value.table empty ∷ [];
        lj_err = other_error 23;
      }))
    × (v.jvm ≡ start.jvm)
line_table-fault_example =
    line_table-fault ⦃host = failing_host⦄ 41 (other_error 23) (some (115, "JVMTI_ERROR")) start.jvm
      start.jvm start refl refl refl refl (omega arith)
