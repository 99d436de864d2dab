-- ===== src/Tests/History.antt =====
-- A history of callbacks on the small JVM, and the theorem on histories applied to it.
use yellow_tree.Common.{ℕ, ◌+◌, ◌≤◌, false, Option, some, List, [], ◌∷◌, ◌≡◌, refl, arith}
use yellow_tree.Runtime.Value.{Value, Ptr}
use yellow_tree.Runtime.World.{World, ok}
use yellow_tree.Event.Names
use yellow_tree.Event.Delivery.{JvmtiEvent, callback_of, deliver}
use yellow_tree.Event.History.{
  Change, sets, clears, is_key, FreshRefs, KeepsTo, no_functions, apply_all,
}
use yellow_tree.Event.Refinement.{make_all, expected, history-delivers}
use yellow_tree.Tests.Demo.{Jvm, demo_host, demo_scripts, start, above}
use yellow_tree.Tests.Events.{demo_accepts}

above-positive : (r : List (ℕ × Value)) → 1 ≤ above r
above-positive [] = omega arith
above-positive ((k, v) ∷ r) = omega (arith, above-positive r)

above-unused : (r : List (ℕ × Value)) (n : ℕ) → above r ≤ n → is_key n r ≡ false
above-unused [] n h = refl
above-unused ((k, v) ∷ r) n h = ground (arith, above-positive r, above-unused r n)

demo_fresh : FreshRefs demo_host
demo_fresh = record {
  nonzero = λ r. ground (arith, above-positive r);
  unused = λ r. above-unused r (above r) (omega arith);
}

-- Single steps are set twice, and breakpoints are set and cleared.
abbrev changes : List Change
changes =
    sets Names.single_step 9
    ∷ sets Names.breakpoint 8
    ∷ sets Names.single_step 7
    ∷ clears Names.breakpoint
    ∷ []

last_function : apply_all changes no_functions Names.single_step ≡ some 7
last_function = refl

history-delivers_example :
    (v : World Jvm) × (make_all changes start ≡ ok 0 v)
    × KeepsTo v (apply_all changes no_functions)
    × ((thread g : Ptr) (j : Jvm) (e : JvmtiEvent)
        → (◌≡◌ {A = Option Ptr × Jvm} (some (thread + 1000), v.jvm) (some g, j))
        → deliver thread e v
          ≡ expected (apply_all changes no_functions (callback_of e)) thread g j e v)
history-delivers_example = history-delivers demo_accepts demo_fresh changes start refl refl refl
