-- ===== src/Tests/Heap.antt =====
-- The theorem on the instances of a class, applied to the heap of the small JVM.
use yellow_tree.Common.{
  ◌&&◌, List, [], ◌∷◌, ◌==◌, ◌≡◌, refl, arith, ap, sym, ◌∙◌, inl, inr, Bool-cases,
}
use yellow_tree.Common.Int.{ℤ, pos}
use yellow_tree.Runtime.Value.{Ptr, Value, empty, object}
use yellow_tree.Runtime.World.{ok, enter}
use yellow_tree.Lj.Class.{lj_get_class_instances}
use yellow_tree.Lj.Heap.{Heap, same_tag, is_in}
use yellow_tree.Lj.Instances.{class_instances-exact, TagsUpTo}
use yellow_tree.Lj.Tables.{rows}
use yellow_tree.Tests.Demo.{Jvm, demo_host, start, heap_objects, heap_class, with_tag}

is_in-with_tag :
    (tags : Ptr → ℤ) (t : ℤ) (os : List Ptr) (o : Ptr)
    → is_in o (with_tag tags t os) ≡ (is_in o os && same_tag (tags o) t)
is_in-with_tag tags t [] o = refl
is_in-with_tag tags t (p ∷ os) o = elim (Bool-cases (o == p)) [
  | inl e ↦
      (let same : same_tag (tags p) t ≡ same_tag (tags o) t =
          ap (λ q. same_tag (tags q) t) (ground arith) in
        elim (Bool-cases (same_tag (tags o) t)) [
          | inl f ↦ rw (same, f, e) refl
          | inr f ↦ rw (same, f, e) (rw (is_in-with_tag tags t os o) (rw f (ground arith)))
        ])
  | inr e ↦ elim (Bool-cases (same_tag (tags p) t)) [
    | inl f ↦ rw (f, e) (is_in-with_tag tags t os o)
    | inr f ↦ rw (f, e) (is_in-with_tag tags t os o)
  ]
]

abbrev demo_heap : Heap demo_host
demo_heap = record {
  objects = λ j. heap_objects;
  class_of = heap_class;
  tag_of = λ j. j.1;
  class_tag = λ j o. pos 0;
  size = λ j o. pos 16;
  array_length = λ j o. pos 0;
  visits = λ k f j i goes h o. ap (λ r. r.1.1 o) (sym h);
  same_objects = λ k f j i h. refl;
  finds = λ t objs tags j i h o.
      ap (λ r. is_in o r.1.0.contents) (sym h) ∙ is_in-with_tag j.1 t heap_objects o;
  search_keeps = λ t j o. refl;
  reference_keeps = λ p j o. refl;
  deallocate_keeps = λ p j o. refl;
}

class_instances-exact_example :
    (v : Jvm) × (lj_get_class_instances (enter (object 21 ∷ []) start)
      ≡ ok 1 (record start {
        frame = Value.table (rows 0 (object 1061 ∷ []) empty) ∷ [];
        search_tag = pos 2;
        jvm = v;
      }))
    × ((o : Ptr) → is_in o (61 ∷ []) ≡ (is_in o heap_objects && (heap_class o == 21)))
    × TagsUpTo demo_heap 2 v
class_instances-exact_example =
    class_instances-exact demo_heap 21 112 113 1 (61 ∷ []) [] _ _ start refl (omega arith)
      (λ o. (0, refl, omega arith)) (λ o j. refl) refl refl
