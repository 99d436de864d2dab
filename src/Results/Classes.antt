-- ===== src/Results/Classes.antt =====
-- The functions of lj_class.c.
use yellow_tree.Common.{ℕ, String, ◌+◌, Option, none, some, List, [], ◌∷◌}
use yellow_tree.Runtime.Value.{Ptr, Buffer, Key, field_of, method}
use yellow_tree.Runtime.Host.{Host}
use yellow_tree.Runtime.Stack.{check_string, check_object}
use yellow_tree.Runtime.Answers.{
  returns, Ends-skip, Ends-chain, Ends-one, Answers, Holds, filled, one, Pushes, Ends-branch,
}
use yellow_tree.JniUtil.{exception_check}
use yellow_tree.LuaJava.{check_jvmti_error}
use yellow_tree.Bridge.{new_jfield_id, new_jmethod_id, new_jobject}
use yellow_tree.Lj.Class.{
  following_tag, is_absent, found_class, lj_find_class, fields_loop, free_if_some,
  lj_get_class_fields, methods_loop, lj_get_class_methods, lj_get_source_filename, classes_loop,
  lj_get_loaded_classes, instances_loop, free_both_if_some, lj_get_class_instances, push_source,
}
use yellow_tree.Results.Calls.{
  set_in-Ends, new_jobject-Pushes, free_jvmti_refs-Holds, raw_set_in-Ends,
}

module _ {J : Type 0} ⦃host : Host J⦄ where
  found_class-Answers : (o : Option Ptr) → Answers {J = J} (found_class o)
  found_class-Answers none w = returns (one filled)
  found_class-Answers (some k) w = Ends-one (new_jobject-Pushes _ _)

  pub lj_find_class-Answers : Answers {J = J} lj_find_class
  unfolding lj_find_class
  lj_find_class-Answers w = Ends-skip (check_string 1 w) λ s w. found_class-Answers _ _

  fields_loop-Holds :
      (klass : Ptr) (i : ℕ) (fields : List Ptr) → Holds {J = J} (fields_loop klass i fields)
  unfolding fields_loop new_jfield_id
  fields_loop-Holds klass i [] w h = returns h
  fields_loop-Holds klass i (f ∷ fields) w h =
      Ends-chain
        (set_in-Ends (Key.index (i + 1)) (field_of f klass ∷ w.frame)
          (record w { frame = field_of f klass ∷ w.frame }))
        λ _ v q. fields_loop-Holds klass (i + 1) fields v q

  free_if_some-Holds : (o : Option Ptr) → Holds {J = J} (free_if_some o)
  free_if_some-Holds none w h = returns h
  free_if_some-Holds (some p) w h = Ends-chain (free_jvmti_refs-Holds _ w h) λ _ v q. returns q

  pub lj_get_class_fields-Answers : Answers {J = J} lj_get_class_fields
  unfolding lj_get_class_fields
  lj_get_class_fields-Answers w = Ends-skip (check_object 1 w) λ k u.
      Ends-skip (check_jvmti_error _ _ _ _) λ _ v.
        Ends-chain (fields_loop-Holds k 0 (host.jvmti.get_class_fields k u.jvm).1.contents _ filled)
          λ _ v q. Ends-one (free_if_some-Holds _ v q)

  methods_loop-Holds : (i : ℕ) (methods : List Ptr) → Holds {J = J} (methods_loop i methods)
  unfolding methods_loop new_jmethod_id
  methods_loop-Holds i [] w h = returns h
  methods_loop-Holds i (m ∷ methods) w h =
      Ends-chain
        (set_in-Ends (Key.index (i + 1)) (method m ∷ w.frame)
          (record w { frame = method m ∷ w.frame }))
        λ _ v q. methods_loop-Holds (i + 1) methods v q

  pub lj_get_class_methods-Answers : Answers {J = J} lj_get_class_methods
  unfolding lj_get_class_methods
  lj_get_class_methods-Answers w = Ends-skip (check_object 1 w) λ k u.
      Ends-skip (check_jvmti_error _ _ _ _) λ _ v.
        Ends-chain (methods_loop-Holds 0 (host.jvmti.get_class_methods k u.jvm).1.contents _ filled)
          λ _ v q. Ends-one (free_if_some-Holds _ v q)

  push_source-Pushes : (file : Buffer String) → Pushes {J = J} (push_source file)
  push_source-Pushes file w = Ends-branch (is_absent w.lj_err) (returns filled) (
      Ends-skip (check_jvmti_error _ _ _ _)
        λ _ w. Ends-chain (free_jvmti_refs-Holds _ _ filled) λ _ v q. returns q)

  pub lj_get_source_filename-Answers : Answers {J = J} lj_get_source_filename
  unfolding lj_get_source_filename
  lj_get_source_filename-Answers w =
      Ends-skip (check_object 1 w) λ k w. Ends-one (push_source-Pushes _ _)

  classes_loop-Holds : (classes : List Ptr) → Holds {J = J} (classes_loop classes)
  unfolding classes_loop
  classes_loop-Holds [] w h = returns h
  classes_loop-Holds (k ∷ classes) w h = Ends-skip (check_jvmti_error _ _ _ _) λ _ w.
      Ends-skip (new_jobject _ _) λ _ w. Ends-skip (exception_check _ _ _) λ _ w.
        Ends-chain (raw_set_in-Ends w.frame w)
          λ _ v q. Ends-chain (free_jvmti_refs-Holds _ v q) λ _ v q. classes_loop-Holds classes v q

  pub lj_get_loaded_classes-Answers : Answers {J = J} lj_get_loaded_classes
  unfolding lj_get_loaded_classes
  lj_get_loaded_classes-Answers w = Ends-skip (check_jvmti_error _ _ _ _) λ _ v.
      Ends-chain (classes_loop-Holds (host.jvmti.get_loaded_classes w.jvm).1.contents _ filled)
        λ _ v q. Ends-one (free_if_some-Holds _ v q)

  instances_loop-Holds : (i : ℕ) (objs : List Ptr) → Holds {J = J} (instances_loop i objs)
  unfolding instances_loop
  instances_loop-Holds i [] w h = returns h
  instances_loop-Holds i (o ∷ objs) w h = Ends-skip (new_jobject _ _) λ _ w.
      Ends-skip (exception_check _ _ _) λ _ w.
        Ends-chain (set_in-Ends (Key.index (i + 1)) w.frame w)
          λ _ v q. instances_loop-Holds (i + 1) objs v q

  free_both_if_some-Holds : (o tags : Option Ptr) → Holds {J = J} (free_both_if_some o tags)
  free_both_if_some-Holds none tags w h = returns h
  free_both_if_some-Holds (some p) tags w h =
      Ends-chain (free_jvmti_refs-Holds _ w h) λ _ v q. returns q

  pub lj_get_class_instances-Answers : Answers {J = J} lj_get_class_instances
  unfolding lj_get_class_instances
  lj_get_class_instances-Answers w = Ends-skip (check_object 1 w) λ k w.
      Ends-skip (check_jvmti_error _ _ _ _) λ _ u. Ends-skip (check_jvmti_error _ _ _ _) λ _ v.
        let tag = following_tag w.search_tag in
        Ends-chain
          (instances_loop-Holds 0 (host.jvmti.get_objects_with_tags tag u.jvm).1.0.contents _
            filled)
          λ _ v q. Ends-one (free_both_if_some-Holds _ _ v q)
