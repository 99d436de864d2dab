-- ===== src/Lj/Instances.antt =====
-- `lj_get_class_instances` on a heap: the tag of a search is new, so that the objects found are
-- those that were tagged in it.
use yellow_tree.Common.{
  ℕ, suc, ◌+◌, ◌<◌, ◌≤◌, ◌^◌, true, false, ◌&&◌, Option, some, List, [], ◌∷◌, ◌==◌, ◌≡◌, refl,
  arith, ◌∙◌, ap, sym, inl, inr, Bool-cases, if◌then◌else◌,
}
use yellow_tree.Common.Int.{ℤ, pos, negsuc, narrow, ◌-ℤ◌}
use yellow_tree.Runtime.Value.{Ptr, Value, Fields, error_none, object_or_nil, empty, object}
use yellow_tree.Runtime.Host.{Host}
use yellow_tree.Runtime.World.{World, ok, enter}
use yellow_tree.JniUtil.{free_jvmti_refs}
use yellow_tree.LuaJava.{check_jvmti_error}
use yellow_tree.LuaJava.Values.{no_exception, new_jobject-value}
use yellow_tree.Lj.Buffers.{erase_two}
use yellow_tree.Lj.Tables.{rows, ==_self}
use yellow_tree.Lj.Members.{values}
use yellow_tree.Lj.Class.{following_tag, heap_iter_tag_item, instances_loop, lj_get_class_instances}
use yellow_tree.Lj.Heap.{Heap, same_tag, is_in}

following_tag-pos : (n : ℕ) → suc n < 2 ^ 63 → following_tag (pos n) ≡ pos (suc n)
unfolding narrow ◌-ℤ◌
following_tag-pos n h = ground arith

same_tag_self : (t : ℤ) → same_tag t t ≡ true
same_tag_self (pos n) = ==_self n
same_tag_self (negsuc n) = ==_self n

-- The global references that are made for the objects of a list, one after the other.
abbrev pub global_refs : {J : Type 0} → Host J → List Ptr → J → List (Option Ptr) × J
global_refs host [] j = ([], j)
global_refs host (o ∷ os) j =
    let g = host.jni.new_global_ref o j in
    let rest = global_refs host os g.1 in (g.0 ∷ rest.0, rest.1)

module _ {J : Type 0} ⦃host : Host J⦄ where
  module _
      (calm : (o : Ptr) (j : J)
        → host.jni.exception_check (host.jni.new_global_ref o j).1 ≡ false) where
    instances_loop-rows :
        (i : ℕ) (objs : List Ptr) (t : Fields) (rest : List Value) (w : World J)
        → instances_loop i objs (record w { frame = Value.table t ∷ rest })
          ≡ ok tt (record w {
            frame =
                Value.table (rows i (values object_or_nil (global_refs host objs w.jvm).0) t)
                ∷ rest;
            jvm = (global_refs host objs w.jvm).1;
          })
    unfolding instances_loop
    instances_loop-rows i [] t rest w = refl
    instances_loop-rows i (o ∷ os) t rest w =
        let g = host.jni.new_global_ref o w.jvm in
        let u = record w { frame = Value.table t ∷ rest; jvm = g.1 } in
        rw (new_jobject-value g.0 u) (
          rw
            (no_exception "lua_java/lj_class.c" 193
              (record u { frame = object_or_nil g.0 ∷ u.frame }) (calm o w.jvm))
            (instances_loop-rows (i + 1) os _ rest (record w { jvm = g.1 })))

  module _ (heap : Heap host) where
    -- No tag is above `n`.
    abbrev pub TagsUpTo : ℕ → J → Type 0
    TagsUpTo n j = (o : Ptr) → (m : ℕ) × (heap.tag_of j o ≡ pos m) × (m ≤ n)

    global_refs-keep :
        (os : List Ptr) (j : J) (o : Ptr)
        → heap.tag_of (global_refs host os j).1 o ≡ heap.tag_of j o
    global_refs-keep [] j o = refl
    global_refs-keep (p ∷ ps) j o =
        global_refs-keep ps (host.jni.new_global_ref p j).1 o ∙ heap.reference_keeps p j o

    -- After the walk, an object has the new tag if it is of the class, and otherwise an old one.
    tagged :
        (k : Ptr) (n : ℕ) (j i : J) (o : Ptr)
        → TagsUpTo n j
        → host.jvmti.iterate_through_heap k (heap_iter_tag_item (pos (suc n))) j ≡ (error_none, i)
        → (same_tag (heap.tag_of i o) (pos (suc n)) ≡ (heap.class_of o == k))
          × ((m : ℕ) × (heap.tag_of i o ≡ pos m) × (m ≤ suc n))
    tagged k n j i o below visited =
        let v = heap.visits k (heap_iter_tag_item (pos (suc n))) j i (λ c s t l. refl) visited o in
        let (m, old, le) = below o in
        elim (Bool-cases (heap.class_of o == k)) [
          | inl e ↦ (
            rw (v, e) (==_self (suc n)),
            (suc n, v ∙ ap (λ b. if b then pos (suc n) else heap.tag_of j o) e, omega arith),
          )
          | inr e ↦ (
            rw (v, e) (rw old (ground arith)),
            (m, v ∙ ap (λ b. if b then pos (suc n) else heap.tag_of j o) e ∙ old, omega arith),
          )
        ]

    -- On a heap that keeps to the documentation of JVMTI, where no tag is above the search tag n,
    -- n + 1 is below 2 ^ 63, JVMTI accepts both calls and no Java exception is pending after a new
    -- global reference, the objects that JVMTI finds in lj_get_class_instances are exactly those
    -- of the heap that are of the class. The function returns one table with a global reference to
    -- each of them, in order; no buffer is left, and again no tag is above the search tag.
    pub class_instances-exact :
        (k p q : Ptr) (n : ℕ) (objs : List Ptr) (tags : List ℤ) (i j : J) (w : World J)
        → w.search_tag ≡ pos n
        → suc n < 2 ^ 63
        → TagsUpTo n w.jvm
        → ((o : Ptr) (j : J) → host.jni.exception_check (host.jni.new_global_ref o j).1 ≡ false)
        → host.jvmti.iterate_through_heap k (heap_iter_tag_item (pos (suc n))) w.jvm
          ≡ (error_none, i)
        → host.jvmti.get_objects_with_tags (pos (suc n)) i ≡ (
          error_none,
          (record { at = some p; contents = objs }, record { at = some q; contents = tags }),
          j,
        )
        → (v : J) × (lj_get_class_instances (enter (object k ∷ []) w)
            ≡ ok 1 (record w {
              frame =
                  Value.table (rows 0 (values object_or_nil (global_refs host objs j).0) empty)
                  ∷ [];
              lj_err = error_none;
              search_tag = pos (suc n);
              jvm = v;
            }))
          × ((o : Ptr) → is_in o objs ≡ (is_in o (heap.objects w.jvm) && (heap.class_of o == k)))
          × TagsUpTo (suc n) v
    unfolding lj_get_class_instances check_jvmti_error free_jvmti_refs
    class_instances-exact k p q n objs tags i j w e small below calm visited found =
        let g = global_refs host objs j in
        let u = record w {
          frame = [];
          lj_err = error_none;
          search_tag = pos (suc n);
          buffers = q ∷ p ∷ w.buffers;
          jvm = j;
        } in
        (
          (host.jvmti.deallocate q (host.jvmti.deallocate p g.1).1).1,
          rw e (
              rw (following_tag-pos n small) (
                rw visited (
                  rw found (
                    rw (instances_loop-rows calm 0 objs empty [] u)
                      (rw (erase_two p q w.buffers) refl))))),
          λ o.
              heap.finds (pos (suc n)) (record { at = some p; contents = objs })
                (record { at = some q; contents = tags }) i j found o
              ∙ rw
                  (
                    heap.same_objects k (heap_iter_tag_item (pos (suc n))) w.jvm i visited,
                    (tagged k n w.jvm i o below visited).0,
                  )
                  refl,
          λ o.
              let (m, t, le) = (tagged k n w.jvm i o below visited).1 in
              (
                m,
                heap.deallocate_keeps q _ o
                    ∙ heap.deallocate_keeps p _ o
                    ∙ global_refs-keep objs j o
                    ∙ ap (λ r. heap.tag_of r.2 o) (sym found)
                    ∙ heap.search_keeps (pos (suc n)) i o
                    ∙ t,
                le,
              ),
        )
