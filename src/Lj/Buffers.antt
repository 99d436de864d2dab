-- ===== src/Lj/Buffers.antt =====
-- The buffers that JVMTI allocates for an answer: which functions give them back, and which do not.
use mathlib.Core.List.{append_assoc}
use yellow_tree.Common.{
  ◌++◌, ap, sym, ◌∙◌, none, some, List, [], ◌∷◌, erase, ◌≡◌, refl, arith, false, Bool, ◌==◌, ◌||◌,
  String,
}
use yellow_tree.Runtime.Value.{
  Ptr, Value, Fields, empty, entry, Key, Buffer, LocalVariableEntry, error_none, method, field_of,
  put,
}
use yellow_tree.Runtime.Host.{Host}
use yellow_tree.Runtime.World.{World, ok, enter}
use yellow_tree.Runtime.Calls.{add_buffer, add_variables}
use yellow_tree.JniUtil.{free_jvmti_refs}
use yellow_tree.LuaJava.{check_jvmti_error}
use yellow_tree.Lj.Tables.{==_self}
use yellow_tree.Lj.Method.{lj_get_method_name, variables_loop, lj_get_local_variable_table}
use yellow_tree.Lj.Field.{lj_get_field_name}

-- A table with the two texts of an answer.
abbrev pub name_table : (name sig : String) → Value
name_table n s =
    Value.table
      (entry (Key.name "name") (Value.string n) (entry (Key.name "sig") (Value.string s) empty))

-- What Lua sees of a variable, and the table of them by name: a later entry replaces an earlier one.
abbrev pub variable_value : LocalVariableEntry → Value
variable_value v = Value.table (
    entry (Key.name "name") (Value.string v.name.contents) (
      entry (Key.name "sig") (Value.string v.signature.contents) (
        entry (Key.name "start_location") (Value.integer v.start_location)
          (entry (Key.name "slot") (Value.integer v.slot) empty))))

abbrev pub variable_fields : List LocalVariableEntry → Fields → Fields
variable_fields [] t = t
variable_fields (v ∷ vs) t =
    variable_fields vs (put (Key.name v.name.contents) (variable_value v) t)

-- The buffers of the names and the signatures, those of the last entry first.
abbrev pub listed : {A : Type 0} → Buffer A → List Ptr
listed b = add_buffer b.at []

abbrev pub held : List LocalVariableEntry → List Ptr
held [] = []
held (v ∷ vs) = held vs ++ (listed v.signature ++ listed v.name)

abbrev pub contains : Ptr → List Ptr → Bool
contains p [] = false
contains p (q ∷ qs) = (p == q) || contains p qs

erase-append :
    (p : Ptr) (qs ps : List Ptr) → contains p qs ≡ false → erase p (qs ++ p ∷ ps) ≡ qs ++ ps
erase-append p [] ps h = rw (==_self p) refl
erase-append p (q ∷ qs) ps h =
    let other : (p == q) ≡ false = ground arith in
    rw (other, erase-append p qs ps (ground arith)) refl

add_buffer-listed :
    {A : Type 0} (b : Buffer A) (ps : List Ptr) → add_buffer b.at ps ≡ listed b ++ ps
add_buffer-listed b ps = elim b.at as (λ o. add_buffer o ps ≡ add_buffer o [] ++ ps) [
  | none ↦ refl
  | some p ↦ refl
]

-- Giving back two buffers that were allocated one after the other, whatever their addresses are.
pub erase_two : (p q : Ptr) (ps : List Ptr) → erase q (erase p (q ∷ p ∷ ps)) ≡ ps
erase_two p q ps = ground (arith, ==_self p, ==_self q)

add_variables-held :
    (vs : List LocalVariableEntry) (ps : List Ptr) → add_variables vs ps ≡ held vs ++ ps
add_variables-held [] ps = refl
add_variables-held (v ∷ vs) ps =
    add_variables-held vs (add_buffer v.signature.at (add_buffer v.name.at ps))
    ∙ ap (λ qs. held vs ++ qs)
        (add_buffer-listed v.signature _
          ∙ ap (λ qs. listed v.signature ++ qs) (add_buffer-listed v.name ps)
          ∙ sym (append_assoc (listed v.signature) (listed v.name) ps))
    ∙ sym (append_assoc (held vs) (listed v.signature ++ listed v.name) ps)

module _ {J : Type 0} ⦃host : Host J⦄ where
  -- When JVMTI answers with a method's name and signature, lj_get_method_name returns one value,
  -- the table of the two, and both buffers are given back.
  pub method_name-balanced :
      (m p q : Ptr) (n s : String) (j : J) (w : World J)
      → host.jvmti.get_method_name m w.jvm ≡ (
        error_none,
        (record { at = some p; contents = n }, record { at = some q; contents = s }),
        j,
      )
      → lj_get_method_name (enter (method m ∷ []) w)
        ≡ ok 1 (record w {
          frame = name_table n s ∷ [];
          lj_err = error_none;
          jvm = (host.jvmti.deallocate q (host.jvmti.deallocate p j).1).1;
        })
  unfolding lj_get_method_name check_jvmti_error free_jvmti_refs
  method_name-balanced m p q n s j w h = rw h (rw (erase_two p q w.buffers) refl)

  -- When JVMTI answers with a field's name and signature, lj_get_field_name returns one value, the
  -- table of the two, and both buffers are given back.
  pub field_name-balanced :
      (k f p q : Ptr) (n s : String) (j : J) (w : World J)
      → host.jvmti.get_field_name k f w.jvm ≡ (
        error_none,
        (record { at = some p; contents = n }, record { at = some q; contents = s }),
        j,
      )
      → lj_get_field_name (enter (field_of f k ∷ []) w)
        ≡ ok 1 (record w {
          frame = name_table n s ∷ [];
          lj_err = error_none;
          jvm = (host.jvmti.deallocate q (host.jvmti.deallocate p j).1).1;
        })
  unfolding lj_get_field_name check_jvmti_error free_jvmti_refs
  field_name-balanced k f p q n s j w h = rw h (rw (erase_two p q w.buffers) refl)

  variables_loop-fields :
      (vs : List LocalVariableEntry) (t : Fields) (rest : List Value) (w : World J)
      → variables_loop vs (record w { frame = Value.table t ∷ rest })
        ≡ ok tt (record w { frame = Value.table (variable_fields vs t) ∷ rest })
  unfolding variables_loop
  variables_loop-fields [] t rest w = refl
  variables_loop-fields (v ∷ vs) t rest w = variables_loop-fields vs _ rest w

  -- When JVMTI answers with a table of at least one variable, lj_get_local_variable_table returns
  -- one value, a table of the variables by name; the array alone is given back, and the buffers of
  -- all names and signatures stay allocated. The array is none of those buffers.
  pub variable_table-leaks :
      (m p : Ptr) (x : LocalVariableEntry) (vs : List LocalVariableEntry) (j : J) (w : World J)
      → host.jvmti.get_local_variable_table m w.jvm
        ≡ (error_none, record { at = some p; contents = x ∷ vs }, j)
      → contains p (held (x ∷ vs)) ≡ false
      → lj_get_local_variable_table (enter (method m ∷ []) w)
        ≡ ok 1 (record w {
          frame = Value.table (variable_fields (x ∷ vs) empty) ∷ [];
          lj_err = error_none;
          jvm = (host.jvmti.deallocate p j).1;
          buffers = held (x ∷ vs) ++ w.buffers;
        })
  unfolding lj_get_local_variable_table check_jvmti_error free_jvmti_refs
  variable_table-leaks m p x vs j w h other =
      let u = record w {
        jvm = j;
        lj_err = error_none;
        buffers = add_variables (x ∷ vs) (p ∷ w.buffers);
      } in
      let left : erase p u.buffers ≡ held (x ∷ vs) ++ w.buffers =
        ap (erase p) (add_variables-held (x ∷ vs) (p ∷ w.buffers))
        ∙ erase-append p (held (x ∷ vs)) w.buffers other in
      rw h (
        rw (variables_loop-fields (x ∷ vs) empty [] u) (
          ap
            (λ qs. ok 1 (record u {
              frame = Value.table (variable_fields (x ∷ vs) empty) ∷ [];
              jvm = (host.jvmti.deallocate p j).1;
              buffers = qs;
            }))
            left))
