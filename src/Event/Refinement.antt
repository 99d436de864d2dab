-- ===== src/Event/Refinement.antt =====
-- The C code keeps to the functions that were set: the tables, and the events that are sent.
use yellow_tree.Common.{
  ℕ, Bool, true, false, Option, none, some, List, [], ◌∷◌, ◌==◌, if◌then◌else◌, ◌≡◌, refl, ◌≢◌, ◌∙◌,
  subst, ap, arith,
}
use yellow_tree.Runtime.Value.{Value, Ptr, ref, no_ref}
use yellow_tree.Runtime.Host.{Host}
use yellow_tree.Runtime.World.{Scripts, World, Outcome, ok, enter, and_then}
use yellow_tree.Runtime.Stack.{value_of_ref}
use yellow_tree.Event.{no_refs, loaded_callbacks}
use yellow_tree.Event.Names.{Callback, name_of, handler_of, breakpoint}
use yellow_tree.Event.Setting.{Accepts, after_set, after_clear, set_lem, clear_lem}
use yellow_tree.Event.Dispatch.{enable_events_after_callback_handling}
use yellow_tree.Event.Delivery.{
  JvmtiEvent, callback_of, args_of, results_of, announced, quiet, deliver, deliver-set,
  deliver-unset,
}
use yellow_tree.Event.Rows.{
  read_member-write_self, read_ref-write_self, read_member-write_ne, read_ref-write_ne,
}
use yellow_tree.Event.Registry.{lj_set_jvmti_callback, lj_clear_jvmti_callback}
use yellow_tree.Event.History.{
  Change, sets, clears, same, same-true, same-false, Functions, no_functions, apply, apply_all,
  FreshRefs, Row, cleared, stored, KeepsTo,
}

module _ {J : Type 0} ⦃host : Host J⦄ where
  -- The C function that Lua calls for a change.
  abbrev pub make : Change → World J → Outcome J ℕ
  make (sets c f) w =
      lj_set_jvmti_callback (enter (Value.function f ∷ Value.string (name_of c) ∷ []) w)
  make (clears c) w = lj_clear_jvmti_callback (enter (Value.string (name_of c) ∷ []) w)

  abbrev pub make_all : List Change → World J → Outcome J ℕ
  make_all [] w = ok 0 w
  make_all (x ∷ xs) w = and_then (make x w) (λ _. make_all xs)

  row-set_same :
      (fresh : FreshRefs host) (c : Callback) (f : ℕ) (t : Ptr) (w : World J)
      → Row (after_set c f t w) c (some f)
  row-set_same fresh c f t w =
      stored (host.lua.fresh_ref w.registry)
        (read_member-write_self c (some (handler_of c)) w.jvmti_callbacks)
        (read_ref-write_self c (ref (host.lua.fresh_ref w.registry)) w.callback_refs) (ground arith)
        (ground arith)

  row-set_other :
      (fresh : FreshRefs host) (c d : Callback) (f : ℕ) (t : Ptr) (w : World J) {o : Option ℕ}
      → c ≢ d
      → Row w d o
      → Row (after_set c f t w) d o
  row-set_other fresh c d f t w ne (cleared m r) =
      cleared (read_member-write_ne c d _ w.jvmti_callbacks ne ∙ m)
        (read_ref-write_ne c d _ w.callback_refs ne ∙ r)
  row-set_other fresh c d f t w ne (stored n m r k v) =
      let z : (n == host.lua.fresh_ref w.registry) ≡ false =
        ground (arith, fresh.unused w.registry) in
      stored n (read_member-write_ne c d _ w.jvmti_callbacks ne ∙ m)
        (read_ref-write_ne c d _ w.callback_refs ne ∙ r) (rw z k) (rw z v)

  row-clear_same : (c : Callback) (t : Ptr) (w : World J) → Row (after_clear c t w) c none
  row-clear_same c t w =
      cleared (read_member-write_self c none w.jvmti_callbacks)
        (read_ref-write_self c no_ref w.callback_refs)

  row-clear_other :
      (c d : Callback) (t : Ptr) (w : World J) {o : Option ℕ}
      → c ≢ d
      → Row w d o
      → Row (after_clear c t w) d o
  row-clear_other c d t w ne (cleared m r) =
      cleared (read_member-write_ne c d _ w.jvmti_callbacks ne ∙ m)
        (read_ref-write_ne c d _ w.callback_refs ne ∙ r)
  row-clear_other c d t w ne (stored n m r k v) =
      stored n (read_member-write_ne c d _ w.jvmti_callbacks ne ∙ m)
        (read_ref-write_ne c d _ w.callback_refs ne ∙ r) k v

  set-KeepsTo :
      (fresh : FreshRefs host) (c : Callback) (f : ℕ) (t : Ptr) (w : World J) (s : Functions)
      → KeepsTo w s
      → KeepsTo (after_set c f t w) (apply (sets c f) s)
  set-KeepsTo fresh c f t w s keep d = pick (same c d) refl
    where
      pick : (b : Bool) → same c d ≡ b → Row (after_set c f t w) d (if b then some f else s d)
      pick true e =
          subst (λ x. Row (after_set c f t w) x (some f)) (same-true c d e)
            (row-set_same fresh c f t w)
      pick false e = row-set_other fresh c d f t w (same-false c d e) (keep d)

  clear-KeepsTo :
      (c : Callback) (t : Ptr) (w : World J) (s : Functions)
      → KeepsTo w s
      → KeepsTo (after_clear c t w) (apply (clears c) s)
  clear-KeepsTo c t w s keep d = pick (same c d) refl
    where
      pick : (b : Bool) → same c d ≡ b → Row (after_clear c t w) d (if b then none else s d)
      pick true e =
          subst (λ x. Row (after_clear c t w) x none) (same-true c d e) (row-clear_same c t w)
      pick false e = row-clear_other c d t w (same-false c d e) (keep d)

  start-KeepsTo :
      (w : World J)
      → w.jvmti_callbacks ≡ loaded_callbacks
      → w.callback_refs ≡ no_refs
      → KeepsTo w no_functions
  start-KeepsTo w loaded empty breakpoint = cleared (ground arith) (ground arith)
  start-KeepsTo w loaded empty _ = cleared (ground arith) (ground arith)

  module _ ⦃scripts : Scripts J⦄ where
    -- What an event does where its callback has this function, or none: `g` is a global reference to
    -- the thread.
    abbrev pub expected :
        Option ℕ → (t g : Ptr) (j : J) → JvmtiEvent → World J → Outcome J (Unit {0})
    expected none t g j e v = ok tt (record v { printed = announced e v.printed })
    expected (some f) t g j e v =
        enable_events_after_callback_handling
          (record (scripts.call (Value.function f) (args_of t e) (results_of e) (quiet e g j v)).1 {
            frame = v.frame;
          })

    deliver-Row :
        (acc : Accepts host) (t g : Ptr) (j : J) (e : JvmtiEvent) (v : World J) {o : Option ℕ}
        → Row v (callback_of e) o
        → host.jni.new_global_ref t v.jvm ≡ (some g, j)
        → deliver t e v ≡ expected o t g j e v
    deliver-Row acc t g j e v (cleared m r) h = deliver-unset t e v r
    deliver-Row acc t g j e v (stored n m r k f) h = deliver-set acc t g j e v _ (rw r refl) h (
        ap (λ x. (scripts.call x (args_of t e) (results_of e) (quiet e g j v)).1)
          (ap (λ q. value_of_ref q v.registry) r ∙ f))

  module _ (acc : Accepts host) (fresh : FreshRefs host) {t : Ptr} where
    make_all-KeepsTo :
        (xs : List Change) (w : World J) (s : Functions)
        → w.lj_current_thread ≡ some t
        → KeepsTo w s
        → (v : World J) × (make_all xs w ≡ ok 0 v) × KeepsTo v (apply_all xs s)
    make_all-KeepsTo [] w s here keep = (w, refl, keep)
    make_all-KeepsTo (sets c f ∷ xs) w s here keep =
        let (v, runs, k) =
          make_all-KeepsTo xs (after_set c f t w) (apply (sets c f) s) here
            (set-KeepsTo fresh c f t w s keep) in
        (v, rw (set_lem acc c f w here (fresh.nonzero w.registry)) runs, k)
    make_all-KeepsTo (clears c ∷ xs) w s here keep =
        let (v, runs, k) =
          make_all-KeepsTo xs (after_clear c t w) (apply (clears c) s) here
            (clear-KeepsTo c t w s keep) in
        (v, rw (clear_lem acc c w here) runs, k)

    -- Starting where no callback is set, with JVMTI accepting the calls, a current thread and
    -- references of luaL_ref that are fresh and not 0, any sequence of setting and clearing
    -- callbacks returns, and the two tables and the registry keep for each callback the function
    -- that was set last, or none. An event that comes then, with JNI giving a global reference to
    -- its thread, runs that function with the event's arguments, and nothing but the printed lines
    -- changes where there is none.
    pub history-delivers :
        ⦃scripts : Scripts J⦄ (xs : List Change) (w : World J)
        → w.jvmti_callbacks ≡ loaded_callbacks
        → w.callback_refs ≡ no_refs
        → w.lj_current_thread ≡ some t
        → (v : World J) × (make_all xs w ≡ ok 0 v)
          × KeepsTo v (apply_all xs no_functions)
          × ((thread g : Ptr) (j : J) (e : JvmtiEvent)
              → host.jni.new_global_ref thread v.jvm ≡ (some g, j)
              → deliver thread e v
                ≡ expected (apply_all xs no_functions (callback_of e)) thread g j e v)
    history-delivers xs w loaded empty here =
        let (v, runs, k) = make_all-KeepsTo xs w no_functions here (start-KeepsTo w loaded empty) in
        (v, runs, k, λ thread g j e h. deliver-Row acc thread g j e v (k (callback_of e)) h)
