-- ===== src/Lj/Loaded.antt =====
-- The loops over objects: the loaded classes and the instances of a class.
use yellow_tree.Common.{
  ℕ, Option, none, some, List, [], ◌∷◌, String, ◌≡◌, refl, Bool, true, false, ◌+◌,
}
use yellow_tree.Common.Int.{pos, ℤ}
use yellow_tree.Runtime.Value.{Ptr, Value, Fields, error_none, object_or_nil, empty, object}
use yellow_tree.Runtime.Host.{Host}
use yellow_tree.Runtime.World.{World, ok, Cmd, ◌>>◌, enter}
use Prim.Native.String.{◌++◌}
use yellow_tree.Runtime.Returns.{Returns, done, Returns-chain}
use yellow_tree.Runtime.Stack.{lua_rawset}
use yellow_tree.Runtime.Calls.{add_buffer}
use yellow_tree.Bridge.{new_jobject}
use yellow_tree.JniUtil.{free_jvmti_refs, exception_check}
use yellow_tree.LuaJava.{check_jvmti_error}
use yellow_tree.LuaJava.Values.{new_jobject-value}
use yellow_tree.Lj.Buffers.{erase_two}
use yellow_tree.Runtime.Stack.{lua_rawseti}
use yellow_tree.Lj.Tables.{==_self}
use yellow_tree.Lj.Class.{
  following_tag, heap_iter_tag_item, classes_loop, lj_get_loaded_classes, instances_loop,
  lj_get_class_instances,
}

-- A table is on top, and the buffers `bs` are allocated.
abbrev pub Filling : {J A : Type 0} → List Ptr → A → World J → Type 0
Filling bs a w = ((t : Fields) × (w.frame ≡ Value.table t ∷ [])) × (w.buffers ≡ bs)

module _ {J : Type 0} ⦃host : Host J⦄ where
  -- The state after a pending exception has been described and cleared, if there is one.
  abbrev checked : Bool → (file : String) (line : ℕ) → World J → World J
  checked false file line w = w
  checked true file line w = record w {
    printed =
        ("EXCEPTION EXISTS at " ++ file ++ ":" ++ host.lua.format_d (pos line) ++ "\n") ∷ w.printed;
    jvm = host.jni.exception_clear (host.jni.exception_describe w.jvm);
  }

  exception_check-checked :
      (file : String) (line : ℕ) (w : World J) (b : Bool)
      → host.jni.exception_check w.jvm ≡ b
      → exception_check file line w ≡ ok tt (checked b file line w)
  unfolding exception_check
  exception_check-checked file line w false h = rw h refl
  exception_check-checked file line w true h = rw h refl

  free-Filling :
      (o : Option Ptr) (bs : List Ptr) (t : Fields) (next : Cmd J (Unit {0})) (w : World J)
      → ((v : World J) → Filling bs tt v → Returns (Filling bs) (next v))
      → Returns (Filling bs) (
          (free_jvmti_refs (o ∷ []) >> next)
            (record w { frame = Value.table t ∷ []; buffers = add_buffer o bs }))
  unfolding free_jvmti_refs
  free-Filling none bs t next w ih = ih _ ((_, refl), refl)
  free-Filling (some p) bs t next w ih = rw (==_self p) (ih _ ((_, refl), refl))

  stored-Filling :
      (b : Bool) (file : String) (line : ℕ) (s : String) (g o : Option Ptr) (bs : List Ptr)
      (t : Fields) (next : Cmd J (Unit {0})) (w : World J)
      → ((v : World J) → Filling bs tt v → Returns (Filling bs) (next v))
      → Returns (Filling bs) (
          (lua_rawset >> (free_jvmti_refs (o ∷ []) >> next)) (
            checked b file line (record w {
              frame = object_or_nil g ∷ Value.string s ∷ Value.table t ∷ [];
              buffers = add_buffer o bs;
            })))
  stored-Filling false file line s g o bs t next w ih = free-Filling o bs _ next w ih
  stored-Filling true file line s g o bs t next w ih =
      free-Filling o bs _ next (checked true file line w) ih

  entry-Filling :
      (s : String) (g o : Option Ptr) (bs : List Ptr) (t : Fields) (next : Cmd J (Unit {0}))
      (w : World J)
      → ((v : World J) → Filling bs tt v → Returns (Filling bs) (next v))
      → Returns (Filling bs) (
          (new_jobject g
              >> (exception_check "lua_java/lj_class.c" 138
                  >> (lua_rawset >> (free_jvmti_refs (o ∷ []) >> next))))
            (record w { frame = Value.string s ∷ Value.table t ∷ []; buffers = add_buffer o bs }))
  entry-Filling s g o bs t next w ih =
      let v = record w { frame = Value.string s ∷ Value.table t ∷ []; buffers = add_buffer o bs } in
      rw (new_jobject-value g v) (
        rw
          (exception_check-checked "lua_java/lj_class.c" 138
            (record v { frame = object_or_nil g ∷ v.frame }) (host.jni.exception_check w.jvm) refl)
          (stored-Filling (host.jni.exception_check w.jvm) _ _ s g o bs t next w ih))

  module _ (answers : (k : Ptr) (j : J) → (host.jvmti.get_class_signature k j).0 ≡ error_none) where
    classes_loop-Filling :
        (ks bs : List Ptr) (w : World J)
        → Filling bs tt w
        → Returns (Filling bs) (classes_loop ks w)
    unfolding classes_loop check_jvmti_error
    classes_loop-Filling [] bs w h = done h
    classes_loop-Filling (k ∷ ks) bs w ((t, f), e) =
        rw (f, e)
          (rw (answers k w.jvm) (
            entry-Filling (host.jvmti.get_class_signature k w.jvm).1.contents
              (host.jni.new_global_ref k (host.jvmti.get_class_signature k w.jvm).2).0
              (host.jvmti.get_class_signature k w.jvm).1.at bs t (classes_loop ks)
              (record w {
                lj_err = error_none;
                jvm = (host.jni.new_global_ref k (host.jvmti.get_class_signature k w.jvm).2).1;
              })
              (λ v. classes_loop-Filling ks bs v)))

    -- When JVMTI answers with the loaded classes and with the signature of any class,
    -- lj_get_loaded_classes returns one value, a table, and gives back every buffer: the array
    -- and, in each turn of the loop, the signature, whether or not a Java exception is pending in
    -- between.
    pub loaded_classes-balanced :
        (p : Ptr) (ks : List Ptr) (j : J) (w : World J)
        → host.jvmti.get_loaded_classes w.jvm
          ≡ (error_none, record { at = some p; contents = ks }, j)
        → Returns (λ n v. (n ≡ 1) × Filling w.buffers n v) (lj_get_loaded_classes (enter [] w))
    unfolding lj_get_loaded_classes check_jvmti_error free_jvmti_refs
    loaded_classes-balanced p ks j w h = rw h (
        Returns-chain (classes_loop-Filling ks (p ∷ w.buffers) _ ((empty, refl), refl))
          (λ a v (filled, e). rw (e, ==_self p) (done (refl, (filled, refl)))))

  kept-Filling :
      (b : Bool) (file : String) (line i : ℕ) (g : Option Ptr) (bs : List Ptr) (t : Fields)
      (next : Cmd J (Unit {0})) (w : World J)
      → ((v : World J) → Filling bs tt v → Returns (Filling bs) (next v))
      → Returns (Filling bs) (
          (lua_rawseti i >> next) (
            checked b file line
              (record w { frame = object_or_nil g ∷ Value.table t ∷ []; buffers = bs })))
  kept-Filling false file line i g bs t next w ih = ih _ ((_, refl), refl)
  kept-Filling true file line i g bs t next w ih = ih _ ((_, refl), refl)

  instances_loop-Filling :
      (i : ℕ) (objs bs : List Ptr) (w : World J)
      → Filling bs tt w
      → Returns (Filling bs) (instances_loop i objs w)
  unfolding instances_loop
  instances_loop-Filling i [] bs w h = done h
  instances_loop-Filling i (obj ∷ objs) bs w ((t, f), e) =
      let (g, j) = host.jni.new_global_ref obj w.jvm in
      let v = record w { frame = Value.table t ∷ []; buffers = bs; jvm = j } in
      rw (f, e)
        (rw (new_jobject-value g v) (
          rw
            (exception_check-checked "lua_java/lj_class.c" 193
              (record v { frame = object_or_nil g ∷ v.frame }) (host.jni.exception_check j) refl)
            (kept-Filling (host.jni.exception_check j) _ _ (i + 1) g bs t
              (instances_loop (i + 1) objs) v (λ v. instances_loop-Filling (i + 1) objs bs v))))

  -- When JVMTI accepts the walk through the heap and answers with the tagged objects,
  -- lj_get_class_instances returns one value, a table, and gives back both arrays.
  pub class_instances-balanced :
      (klass p q : Ptr) (objs : List Ptr) (tags : List ℤ) (i j : J) (w : World J)
      → host.jvmti.iterate_through_heap klass
          (heap_iter_tag_item (following_tag w.search_tag))
          w.jvm
        ≡ (error_none, i)
      → host.jvmti.get_objects_with_tags (following_tag w.search_tag) i ≡ (
        error_none,
        (record { at = some p; contents = objs }, record { at = some q; contents = tags }),
        j,
      )
      → Returns
          (λ n v. (n ≡ 1) × Filling w.buffers n v)
          (lj_get_class_instances (enter (object klass ∷ []) w))
  unfolding lj_get_class_instances check_jvmti_error free_jvmti_refs
  class_instances-balanced klass p q objs tags i j w visited found = rw visited (
      rw found (
        Returns-chain (instances_loop-Filling 0 objs (q ∷ p ∷ w.buffers) _ ((empty, refl), refl))
          (λ a v (filled, e). rw (e, erase_two p q w.buffers) (done (refl, (filled, refl))))))
