-- ===== src/Lj/Members.antt =====
-- The lists that become tables: the fields and methods of a class, and the lines of a method.
use Prim.Native.String.{len}
use yellow_tree.Common.Int.{ℤ, pos, negsuc}
use yellow_tree.LuaJava.Errors.{check_jvmti_error-branches}
use yellow_tree.Common.{
  length, String, Bool, ◌<◌, if◌then◌else◌, ℕ, zero, suc, ◌+◌, Option, none, some, List, [], ◌∷◌,
  get_elem?, ◌≡◌, refl, ◌∙◌, false, true,
}
use yellow_tree.Runtime.Value.{
  Ptr, Value, Fields, empty, entry, Key, index, get, LineNumberEntry, error_none, object,
  JvmtiError, is_none_error, method, field_of,
}
use yellow_tree.Runtime.Host.{Host}
use yellow_tree.Runtime.World.{◌>>◌, Cmd, and_then, pure, World, ok, raised, undefined, enter}
use yellow_tree.Bridge.{new_jfield_id, new_jmethod_id}
use yellow_tree.JniUtil.{free_jvmti_refs}
use yellow_tree.LuaJava.{check_jvmti_error, errmsg, jvmti_message}
use yellow_tree.Lj.Tables.{rows, get-rows, ==_self}
use yellow_tree.Lj.Class.{fields_loop, methods_loop, lj_get_class_fields, lj_get_class_methods}
use yellow_tree.Lj.Method.{has_no_table, lines_loop, turns, lj_get_line_number_table}

abbrev pub values : {A : Type 0} → (A → Value) → List A → List Value
values f [] = []
values f (x ∷ xs) = f x ∷ values f xs

abbrev pub value_at : {A : Type 0} → (A → Value) → Option A → Option Value
value_at f none = none
value_at f (some x) = some (f x)

get_elem?-values :
    {A : Type 0} (f : A → Value) (xs : List A) (k : ℕ)
    → get_elem? (values f xs) k ≡ value_at f (get_elem? xs k)
get_elem?-values f [] k = refl
get_elem?-values f (x ∷ xs) zero = refl
get_elem?-values f (x ∷ xs) (suc k) = get_elem?-values f xs k

pub get-values :
    {A : Type 0} (f : A → Value) (xs : List A) (k : ℕ)
    → get (index (k + 1)) (rows 0 (values f xs) empty) ≡ value_at f (get_elem? xs k)
get-values f xs k = get-rows k (values f xs) ∙ get_elem?-values f xs k

-- What Lua sees of one line.
abbrev pub line_value : LineNumberEntry → Value
line_value line = Value.table (
    entry (Key.name "location") (Value.integer line.start_location)
      (entry (Key.name "line_num") (Value.integer line.line_number) empty))

abbrev pub is_positive : ℤ → Bool
is_positive (pos zero) = false
is_positive (pos (suc n)) = true
is_positive (negsuc n) = false

-- The message of the check that follows the loop over the lines.
abbrev pub line_message : {J : Type 0} → Host J → JvmtiError → (name : String) → String
line_message host e name =
    jvmti_message host.lua.format_d "lua_java/lj_method.c" 128 "lj_get_line_number_table" e name

module _ {J : Type 0} ⦃host : Host J⦄ where
  fields_loop-rows :
      (klass : Ptr) (i : ℕ) (fields : List Ptr) (t : Fields) (rest : List Value) (w : World J)
      → fields_loop klass i fields (record w { frame = Value.table t ∷ rest })
        ≡ ok tt (record w {
          frame = Value.table (rows i (values (λ f. field_of f klass) fields) t) ∷ rest;
        })
  unfolding fields_loop new_jfield_id
  fields_loop-rows klass i [] t rest w = refl
  fields_loop-rows klass i (field ∷ fields) t rest w =
      fields_loop-rows klass (i + 1) fields _ rest w

  methods_loop-rows :
      (i : ℕ) (methods : List Ptr) (t : Fields) (rest : List Value) (w : World J)
      → methods_loop i methods (record w { frame = Value.table t ∷ rest })
        ≡ ok tt (record w { frame = Value.table (rows i (values method methods) t) ∷ rest })
  unfolding methods_loop new_jmethod_id
  methods_loop-rows i [] t rest w = refl
  methods_loop-rows i (m ∷ methods) t rest w = methods_loop-rows (i + 1) methods _ rest w

  lines_loop-rows :
      (i : ℕ) (lines : List LineNumberEntry) (t : Fields) (rest : List Value) (w : World J)
      → lines_loop i (length lines) lines (record w { frame = Value.table t ∷ rest })
        ≡ ok tt (record w { frame = Value.table (rows i (values line_value lines) t) ∷ rest })
  unfolding lines_loop
  lines_loop-rows i [] t rest w = refl
  lines_loop-rows i (line ∷ lines) t rest w = lines_loop-rows (i + 1) lines _ rest w

  -- When JVMTI answers with the fields of a class, lj_get_class_fields returns one value, a table
  -- that holds the id of field k at k + 1 and nothing beyond the last; no buffer stays allocated.
  pub class_fields_table :
      (klass p : Ptr) (fields : List Ptr) (j : J) (k : ℕ) (w : World J)
      → host.jvmti.get_class_fields klass w.jvm
        ≡ (error_none, record { at = some p; contents = fields }, j)
      → (t : Fields) × (v : World J) × (lj_get_class_fields (enter (object klass ∷ []) w) ≡ ok 1 v)
        × (v.frame ≡ Value.table t ∷ [])
        × (v.buffers ≡ w.buffers)
        × (get (index (k + 1)) t ≡ value_at (λ f. field_of f klass) (get_elem? fields k))
  unfolding lj_get_class_fields check_jvmti_error free_jvmti_refs
  class_fields_table klass p fields j k w h = (
    rows 0 (values (λ f. field_of f klass) fields) empty,
    record w {
      frame = Value.table (rows 0 (values (λ f. field_of f klass) fields) empty) ∷ [];
      lj_err = error_none;
      jvm = (host.jvmti.deallocate p j).1;
    },
    rw h (
        rw
          (fields_loop-rows klass 0 fields empty []
            (record w { jvm = j; lj_err = error_none; buffers = p ∷ w.buffers }))
          (rw (==_self p) refl)),
    refl,
    refl,
    get-values _ fields k,
  )

  -- When JVMTI answers with the methods of a class, lj_get_class_methods returns one value, a
  -- table that holds the id of method k at k + 1 and nothing beyond the last; no buffer stays
  -- allocated.
  pub class_methods_table :
      (klass p : Ptr) (methods : List Ptr) (j : J) (k : ℕ) (w : World J)
      → host.jvmti.get_class_methods klass w.jvm
        ≡ (error_none, record { at = some p; contents = methods }, j)
      → (t : Fields) × (v : World J) × (lj_get_class_methods (enter (object klass ∷ []) w) ≡ ok 1 v)
        × (v.frame ≡ Value.table t ∷ [])
        × (v.buffers ≡ w.buffers)
        × (get (index (k + 1)) t ≡ value_at method (get_elem? methods k))
  unfolding lj_get_class_methods check_jvmti_error free_jvmti_refs
  class_methods_table klass p methods j k w h = (
    rows 0 (values method methods) empty,
    record w {
      frame = Value.table (rows 0 (values method methods) empty) ∷ [];
      lj_err = error_none;
      jvm = (host.jvmti.deallocate p j).1;
    },
    rw h (
        rw
          (methods_loop-rows 0 methods empty []
            (record w { jvm = j; lj_err = error_none; buffers = p ∷ w.buffers }))
          (rw (==_self p) refl)),
    refl,
    refl,
    get-values _ methods k,
  )

  -- When JVMTI answers with the line table of a method, lj_get_line_number_table returns one
  -- value, a table that holds at k + 1 the location and the number of line k; no buffer stays
  -- allocated.
  pub line_table :
      (m p : Ptr) (lines : List LineNumberEntry) (j : J) (k : ℕ) (w : World J)
      → host.jvmti.get_line_number_table m w.jvm
        ≡ (error_none, some (record { at = some p; contents = lines }), j)
      → (t : Fields) × (v : World J) × (lj_get_line_number_table (enter (method m ∷ []) w) ≡ ok 1 v)
        × (v.frame ≡ Value.table t ∷ [])
        × (v.buffers ≡ w.buffers)
        × (get (index (k + 1)) t ≡ value_at line_value (get_elem? lines k))
  unfolding lj_get_line_number_table check_jvmti_error free_jvmti_refs
  line_table m p lines j k w h = (
    rows 0 (values line_value lines) empty,
    record w {
      frame = Value.table (rows 0 (values line_value lines) empty) ∷ [];
      lj_err = error_none;
      jvm = (host.jvmti.deallocate p j).1;
    },
    rw h (
        rw
          (lines_loop-rows 0 lines empty []
            (record w { jvm = j; lj_err = error_none; buffers = p ∷ w.buffers }))
          (rw (==_self p) refl)),
    refl,
    refl,
    get-values _ lines k,
  )

  lines_loop-unread :
      (c : ℤ) (x : Value) (next : Cmd J (Unit {0})) (u v : World J)
      → next u ≡ raised x v
      → and_then {B = ℕ} (and_then (lines_loop 0 (turns c) [] u) (λ _. next)) (λ _. pure 1) ≡ (
          if is_positive c
          then undefined (record u { frame = Value.table empty ∷ u.frame })
          else raised x v)
  unfolding lines_loop
  lines_loop-unread (pos zero) x next u v h = rw h refl
  lines_loop-unread (pos (suc n)) x next u v h = refl
  lines_loop-unread (negsuc n) x next u v h = rw h refl

  -- After an error for which lj_get_line_number_table does not answer nil, where JVMTI stores
  -- neither the count nor the table, its loop runs up to whatever the variable for the count
  -- holds. If that is positive, the first turn reads through a null pointer, which has no defined
  -- behaviour; otherwise the check after the loop raises the error, where the message fits its
  -- buffer.
  pub line_table-fault :
      (m : Ptr) (e : JvmtiError) (name : Option (Ptr × String)) (i j : J) (w : World J)
      → host.jvmti.get_line_number_table m w.jvm ≡ (e, none, i)
      → is_none_error e ≡ false
      → has_no_table e ≡ false
      → host.jvmti.get_error_name e i ≡ (name, j)
      → len (line_message host e (errmsg name)) < 500
      → (v : World J) × (lj_get_line_number_table (enter (method m ∷ []) w) ≡ (
          if is_positive host.lua.indeterminate
          then undefined
              (record w { jvm = i; lj_err = e; frame = Value.table empty ∷ Value.table empty ∷ [] })
          else raised (Value.string (line_message host e (errmsg name))) v))
        × (v.jvm ≡ j)
  unfolding lj_get_line_number_table lines_loop
  line_table-fault m e name i j w h bad other named fits =
      let u = record w { jvm = i; lj_err = e; frame = Value.table empty ∷ [] } in
      let (v, raises, same, _) =
        check_jvmti_error-branches "lua_java/lj_method.c" 128 "lj_get_line_number_table" name j u
          named fits in
      (
        v,
        rw h (
            rw (bad, other)
              (lines_loop-unread host.lua.indeterminate
                (Value.string (line_message host e (errmsg name)))
                (check_jvmti_error "lua_java/lj_method.c" 128 "lj_get_line_number_table"
                  >> (free_jvmti_refs (none ∷ []) >> pure tt))
                u v (rw (rw bad at raises) refl))),
        same,
      )
