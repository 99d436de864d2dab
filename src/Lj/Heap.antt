-- ===== src/Lj/Heap.antt =====
-- The heap as JVMTI describes it: the objects, their classes and their tags, and what the walk
-- through the heap, the search for a tag and the other calls do to them.
use yellow_tree.Common.{Bool, false, ◌&&◌, ◌||◌, List, [], ◌∷◌, ◌==◌, ◌≡◌, if◌then◌else◌}
use yellow_tree.Common.Int.{ℤ, pos, negsuc}
use yellow_tree.Runtime.Value.{Ptr, Buffer, error_none}
use yellow_tree.Runtime.Host.{Host}

abbrev pub same_tag : ℤ → ℤ → Bool
same_tag (pos m) (pos n) = m == n
same_tag (negsuc m) (negsuc n) = m == n
same_tag _ _ = false

abbrev pub is_in : Ptr → List Ptr → Bool
is_in o [] = false
is_in o (p ∷ ps) = (o == p) || is_in o ps

pub record Heap {J : Type 0} (host : Host J) : Type 0 where
  pub objects : J → List Ptr
  pub class_of : Ptr → Ptr
  pub tag_of : J → Ptr → ℤ
  -- what the callback is told of an object besides its tag
  pub class_tag : J → Ptr → ℤ
  pub size : J → Ptr → ℤ
  pub array_length : J → Ptr → ℤ
  -- the callback visits the objects of the class itself, if it never asks to stop
  pub visits :
      (k : Ptr) (f : ℤ → ℤ → ℤ → ℤ → ℤ × ℤ) (j i : J)
      → ((c s t l : ℤ) → (f c s t l).1 ≡ pos 0)
      → host.jvmti.iterate_through_heap k f j ≡ (error_none, i)
      → (o : Ptr)
      → tag_of i o ≡ (
          if class_of o == k
          then (f (class_tag j o) (size j o) (tag_of j o) (array_length j o)).0
          else tag_of j o)
  pub same_objects :
      (k : Ptr) (f : ℤ → ℤ → ℤ → ℤ → ℤ × ℤ) (j i : J)
      → host.jvmti.iterate_through_heap k f j ≡ (error_none, i)
      → objects i ≡ objects j
  pub finds :
      (t : ℤ) (objs : Buffer (List Ptr)) (tags : Buffer (List ℤ)) (j i : J)
      → host.jvmti.get_objects_with_tags t j ≡ (error_none, (objs, tags), i)
      → (o : Ptr) → is_in o objs.contents ≡ (is_in o (objects j) && same_tag (tag_of j o) t)
  pub search_keeps :
      (t : ℤ) (j : J) (o : Ptr) → tag_of (host.jvmti.get_objects_with_tags t j).2 o ≡ tag_of j o
  pub reference_keeps :
      (p : Ptr) (j : J) (o : Ptr) → tag_of (host.jni.new_global_ref p j).1 o ≡ tag_of j o
  pub deallocate_keeps :
      (p : Ptr) (j : J) (o : Ptr) → tag_of (host.jvmti.deallocate p j).1 o ≡ tag_of j o
