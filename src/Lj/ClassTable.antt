-- ===== src/Lj/ClassTable.antt =====
-- The table of the loaded classes, by their signatures.
use yellow_tree.Common.{
  Bool, false, ◌||◌, some, String, str_eq, List, [], ◌∷◌, ◌++◌, ◌≡◌, refl, length, arith, ◌∙◌,
}
use yellow_tree.Common.Int.{pos}
use yellow_tree.Runtime.Value.{Ptr, Value, Fields, Key, put, get, error_none, object_or_nil, empty}
use yellow_tree.Runtime.Host.{Host}
use yellow_tree.Runtime.World.{World, ok, enter}
use yellow_tree.Runtime.Lookup.{get-put_name, get-put_name_ne}
use yellow_tree.JniUtil.{free_jvmti_refs}
use yellow_tree.LuaJava.{check_jvmti_error}
use yellow_tree.LuaJava.Values.{no_exception, new_jobject-value}
use yellow_tree.Lj.Tables.{==_self}
use yellow_tree.Lj.Class.{classes_loop, lj_get_loaded_classes, loading_message}

-- Values stored under names, one after the other.
abbrev pub fill : List (String × Value) → Fields → Fields
fill [] t = t
fill ((s, v) ∷ es) t = fill es (put (Key.name s) v t)

abbrev pub is_key : String → List (String × Value) → Bool
is_key s [] = false
is_key s ((n, v) ∷ es) = str_eq s n || is_key s es

get-fill_skip :
    (s : String) (es : List (String × Value)) (t : Fields)
    → is_key s es ≡ false
    → get (Key.name s) (fill es t) ≡ get (Key.name s) t
get-fill_skip s [] t h = refl
get-fill_skip s ((n, v) ∷ es) t h =
    get-fill_skip s es (put (Key.name n) v t) (ground arith)
    ∙ get-put_name_ne s n v t (ground arith)

get-fill :
    (s : String) (v : Value) (before after : List (String × Value)) (t : Fields)
    → is_key s after ≡ false
    → get (Key.name s) (fill (before ++ (s, v) ∷ after) t) ≡ some v
get-fill s v [] after t h = get-fill_skip s after (put (Key.name s) v t) h ∙ get-put_name s v t
get-fill s v ((n, u) ∷ before) after t h = get-fill s v before after (put (Key.name n) u t) h

module _ {J : Type 0} ⦃host : Host J⦄ where
  -- What JVMTI answers for a class: a buffer, the signature in it, and the next state. The entries
  -- are the signatures with a global reference each.
  abbrev pub entries : (Ptr → J → Ptr × String × J) → List Ptr → J → List (String × Value) × J
  entries signature [] j = ([], j)
  entries signature (k ∷ ks) j =
      let (p, s, i) = signature k j in
      let g = host.jni.new_global_ref k i in
      let rest = entries signature ks (host.jvmti.deallocate p g.1).1 in
      ((s, object_or_nil g.0) ∷ rest.0, rest.1)

  module _ (signature : Ptr → J → Ptr × String × J)
      (answers : (k : Ptr) (j : J)
        → host.jvmti.get_class_signature k j ≡ (
          error_none,
          record { at = some (signature k j).0; contents = (signature k j).1 },
          (signature k j).2,
        ))
      (calm : (o : Ptr) (j : J)
        → host.jni.exception_check (host.jni.new_global_ref o j).1 ≡ false) where
    classes_loop-fill :
        (ks : List Ptr) (t : Fields) (w : World J)
        → classes_loop ks (record w { frame = Value.table t ∷ []; lj_err = error_none })
          ≡ ok tt (record w {
            frame = Value.table (fill (entries signature ks w.jvm).0 t) ∷ [];
            lj_err = error_none;
            jvm = (entries signature ks w.jvm).1;
          })
    unfolding classes_loop check_jvmti_error free_jvmti_refs
    classes_loop-fill [] t w = refl
    classes_loop-fill (k ∷ ks) t w =
        let (p, s, i) = signature k w.jvm in
        let g = host.jni.new_global_ref k i in
        let u = record w {
          frame = Value.string s ∷ Value.table t ∷ [];
          lj_err = error_none;
          buffers = p ∷ w.buffers;
          jvm = g.1;
        } in
        rw (answers k w.jvm) (
          rw (new_jobject-value g.0 u) (
            rw
              (no_exception "lua_java/lj_class.c" 138
                (record u { frame = object_or_nil g.0 ∷ u.frame }) (calm k i))
              (rw (==_self p) (
                classes_loop-fill ks (put (Key.name s) (object_or_nil g.0) t)
                  (record w { jvm = (host.jvmti.deallocate p g.1).1 })))))

    -- When JVMTI answers with the loaded classes and with the signature of each, and no Java
    -- exception is pending after a new global reference, lj_get_loaded_classes prints the number
    -- of the classes and returns one value, a table. Under a signature it holds a global reference
    -- to the last class of the list that has it; no buffer stays allocated.
    pub loaded_classes_table :
        (p : Ptr) (ks : List Ptr) (s : String) (v : Value) (before after : List (String × Value))
        (j : J) (w : World J)
        → host.jvmti.get_loaded_classes w.jvm
          ≡ (error_none, record { at = some p; contents = ks }, j)
        → (entries signature ks j).0 ≡ before ++ (s, v) ∷ after
        → is_key s after ≡ false
        → (t : Fields) × (lj_get_loaded_classes (enter [] w)
            ≡ ok 1 (record w {
              frame = Value.table t ∷ [];
              lj_err = error_none;
              printed = loading_message (host.lua.format_d (pos (length ks))) ∷ w.printed;
              jvm = (host.jvmti.deallocate p (entries signature ks j).1).1;
            }))
          × (get (Key.name s) t ≡ some v)
    unfolding lj_get_loaded_classes check_jvmti_error free_jvmti_refs
    loaded_classes_table p ks s v before after j w h e last =
        let message = loading_message (host.lua.format_d (pos (length ks))) in
        let u = record w { buffers = p ∷ w.buffers; printed = message ∷ w.printed; jvm = j } in
        (
          fill (entries signature ks j).0 empty,
          rw h (rw (classes_loop-fill ks empty u) (rw (==_self p) refl)),
          rw e (get-fill s v before after empty last),
        )
