-- ===== src/Lj/Lookup.antt =====
-- Finding a method or a field: the instance member first, then the static one.
use Prim.Native.String.{◌++◌}
use yellow_tree.Common.{
  Option, none, some, [], ◌∷◌, String, ◌≡◌, refl, false, Bool-cases, inl, inr, if◌then◌else◌,
}
use yellow_tree.Runtime.Value.{Ptr, Value, object, method, field_of}
use yellow_tree.Runtime.Host.{Host}
use yellow_tree.Runtime.World.{World, ok, enter}
use yellow_tree.Bridge.{new_jmethod_id, new_jfield_id}
use yellow_tree.JniUtil.{exception_clear}
use yellow_tree.Lj.Method.{lj_get_method_id}
use yellow_tree.Lj.Field.{lj_get_field_id}

abbrev pub first_of : Option Ptr → Option Ptr → Option Ptr
first_of (some p) o = some p
first_of none o = o

abbrev pub method_or_nil : Option Ptr → Value
method_or_nil none = Value.nil
method_or_nil (some p) = method p

abbrev pub field_or_nil : (klass : Ptr) → Option Ptr → Value
field_or_nil klass none = Value.nil
field_or_nil klass (some p) = field_of p klass

module _ {J : Type 0} ⦃host : Host J⦄ where
  -- The state of the JVM without a pending exception.
  abbrev pub cleared : J → J
  cleared j = if host.jni.exception_check j then host.jni.exception_clear j else j

  exception_clear-cleared :
      (w : World J) → exception_clear w ≡ ok tt (record w { jvm = cleared w.jvm })
  unfolding exception_clear
  exception_clear-cleared w = elim (Bool-cases (host.jni.exception_check w.jvm)) [
    | inl e ↦ rw e refl
    | inr e ↦ rw e refl
  ]

  module _ (clears : (j : J) → host.jni.exception_check (host.jni.exception_clear j) ≡ false) where
    cleared-none : (j : J) → host.jni.exception_check (cleared j) ≡ false
    cleared-none j = elim (Bool-cases (host.jni.exception_check j)) [
      | inl e ↦ rw e (clears j)
      | inr e ↦ rw e e
    ]

    -- lj_get_method_id returns one value: the instance method of the name and signature if the
    -- class has one, otherwise the static method, otherwise nil. The signature is that of the
    -- arguments in parentheses, followed by that of the result. No Java exception is pending after
    -- it, where ExceptionClear clears.
    pub method_lookup :
        (k : Ptr) (name args ret : String) (o s : Option Ptr) (i j : J) (w : World J)
        → host.jni.get_method_id k name ("(" ++ args ++ ")" ++ ret) w.jvm ≡ (o, i)
        → host.jni.get_static_method_id k name ("(" ++ args ++ ")" ++ ret) (cleared i) ≡ (s, j)
        → (v : World J) × (lj_get_method_id
              (enter (Value.string ret ∷ Value.string args ∷ Value.string name ∷ object k ∷ []) w)
            ≡ ok 1 v)
          × (v.frame ≡ method_or_nil (first_of o s) ∷ [])
          × (host.jni.exception_check v.jvm ≡ false)
    unfolding lj_get_method_id new_jmethod_id
    method_lookup k name args ret none none i j w h h' = (
      record w { frame = Value.nil ∷ []; jvm = cleared j },
      rw h (
          rw (exception_clear-cleared (record w { frame = []; jvm = i }))
            (rw h' (rw (exception_clear-cleared (record w { frame = []; jvm = j })) refl))),
      refl,
      cleared-none j,
    )
    method_lookup k name args ret none (some q) i j w h h' = (
      record w { frame = method q ∷ []; jvm = cleared j },
      rw h (
          rw (exception_clear-cleared (record w { frame = []; jvm = i }))
            (rw h' (rw (exception_clear-cleared (record w { frame = []; jvm = j })) refl))),
      refl,
      cleared-none j,
    )
    method_lookup k name args ret (some p) s i j w h h' = (
      record w { frame = method p ∷ []; jvm = cleared (cleared i) },
      rw h (
          rw (exception_clear-cleared (record w { frame = []; jvm = i }))
            (rw (exception_clear-cleared (record w { frame = []; jvm = cleared i })) refl)),
      refl,
      cleared-none (cleared i),
    )

    -- In a class that is found, lj_get_field_id returns one value: the instance field of the name
    -- and signature if there is one, otherwise the static field, otherwise nil; the id keeps the
    -- class, and no Java exception is pending after it.
    pub field_lookup :
        (k : Ptr) (class name sig : String) (o s : Option Ptr) (c i j : J) (w : World J)
        → host.jni.find_class class w.jvm ≡ (some k, c)
        → host.jni.get_field_id k name sig (cleared c) ≡ (o, i)
        → host.jni.get_static_field_id k name sig (cleared i) ≡ (s, j)
        → (v : World J) × (lj_get_field_id
              (enter (Value.string sig ∷ Value.string name ∷ Value.string class ∷ []) w)
            ≡ ok 1 v)
          × (v.frame ≡ field_or_nil k (first_of o s) ∷ [])
          × (host.jni.exception_check v.jvm ≡ false)
    unfolding lj_get_field_id new_jfield_id
    field_lookup k class name sig none none c i j w f h h' = (
      record w { frame = Value.nil ∷ []; jvm = cleared j },
      rw f (
          rw (exception_clear-cleared (record w { frame = []; jvm = c })) (
            rw h (
              rw (exception_clear-cleared (record w { frame = []; jvm = i }))
                (rw h' (rw (exception_clear-cleared (record w { frame = []; jvm = j })) refl))))),
      refl,
      cleared-none j,
    )
    field_lookup k class name sig none (some q) c i j w f h h' = (
      record w { frame = field_of q k ∷ []; jvm = cleared j },
      rw f (
          rw (exception_clear-cleared (record w { frame = []; jvm = c })) (
            rw h (
              rw (exception_clear-cleared (record w { frame = []; jvm = i }))
                (rw h' (rw (exception_clear-cleared (record w { frame = []; jvm = j })) refl))))),
      refl,
      cleared-none j,
    )
    field_lookup k class name sig (some p) s c i j w f h h' = (
      record w { frame = field_of p k ∷ []; jvm = cleared (cleared i) },
      rw f (
          rw (exception_clear-cleared (record w { frame = []; jvm = c })) (
            rw h (
              rw (exception_clear-cleared (record w { frame = []; jvm = i }))
                (rw (exception_clear-cleared (record w { frame = []; jvm = cleared i })) refl)))),
      refl,
      cleared-none (cleared i),
    )

    -- For a class that is not found lj_get_field_id returns nil, and no Java exception is pending
    -- after it.
    pub field_lookup-no_class :
        (class name sig : String) (c : J) (w : World J)
        → host.jni.find_class class w.jvm ≡ (none, c)
        → (v : World J) × (lj_get_field_id
              (enter (Value.string sig ∷ Value.string name ∷ Value.string class ∷ []) w)
            ≡ ok 1 v)
          × (v.frame ≡ Value.nil ∷ [])
          × (host.jni.exception_check v.jvm ≡ false)
    unfolding lj_get_field_id
    field_lookup-no_class class name sig c w f = (
      record w { frame = Value.nil ∷ []; jvm = cleared c },
      rw f (rw (exception_clear-cleared (record w { frame = []; jvm = c })) refl),
      refl,
      cleared-none c,
    )
