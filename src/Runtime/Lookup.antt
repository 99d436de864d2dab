-- ===== src/Runtime/Lookup.antt =====
-- Reading a table of Lua after writing it under a name.
use yellow_tree.Common.{
  Bool, true, false, ◌||◌, List, [], ◌∷◌, Option, some, String, str_eq, if◌then◌else◌, ◌≡◌, refl,
  ap, sym, Bool-cases, inl, inr, ◌∙◌, subst,
}
use text.Mathlib.TextPositions.{eq_refl}
use text.Mathlib.TextEquality.{eq_iff}
use yellow_tree.Runtime.Value.{Value, Fields, empty, entry, Key, put, get}
use yellow_tree.Runtime.Globals.{register_all, is_among}

pub get-put_name :
    (s : String) (v : Value) (t : Fields) → get (Key.name s) (put (Key.name s) v t) ≡ some v
get-put_name s v empty = rw (eq_refl s) refl
get-put_name s v (entry (Key.index i) x t) = get-put_name s v t
get-put_name s v (entry (Key.name n) x t) = elim (Bool-cases (str_eq s n)) [
  | inl e ↦ rw (e, eq_refl s) refl
  | inr e ↦ rw (e, e) (get-put_name s v t)
]

pub str_eq-true : (s t : String) → str_eq s t ≡ true → s ≡ t
str_eq-true s t e = (eq_iff s t).0 e

pub get-put_name_ne :
    (s n : String) (v : Value) (t : Fields)
    → str_eq s n ≡ false
    → get (Key.name s) (put (Key.name n) v t) ≡ get (Key.name s) t
get-put_name_ne s n v empty h = rw h refl
get-put_name_ne s n v (entry (Key.index i) x t) h = get-put_name_ne s n v t h
get-put_name_ne s n v (entry (Key.name m) x t) h =
    pick (str_eq n m) refl (get-put_name_ne s n v t h)
  where
    pick :
        (b : Bool)
        → str_eq n m ≡ b
        → get (Key.name s) (put (Key.name n) v t) ≡ get (Key.name s) t
        → get
            (Key.name s)
            (if b then entry (Key.name n) v t else entry (Key.name m) x (put (Key.name n) v t))
          ≡ get (Key.name s) (entry (Key.name m) x t)
    pick true e ih =
        let h' : str_eq s m ≡ false = subst (λ k. str_eq s k ≡ false) (str_eq-true n m e) h in
        rw (h, h') refl
    pick false e ih = ap (λ r. if str_eq s m then some x else r) ih

get-put_case :
    (s n : String) (t : Fields)
    → get (Key.name s) (put (Key.name n) (Value.c_function n) t)
      ≡ (if str_eq s n then some (Value.c_function s) else get (Key.name s) t)
get-put_case s n t = elim (Bool-cases (str_eq s n)) [
  | inl e ↦ rw (e, sym (str_eq-true s n e)) (get-put_name s (Value.c_function s) t)
  | inr e ↦ rw e (get-put_name_ne s n (Value.c_function n) t e)
]

-- A name resolves to its own C function if it was registered, and otherwise as before.
pub get-register_all :
    (s : String) (ns : List String) (t : Fields)
    → get (Key.name s) (register_all ns t)
      ≡ (if is_among s ns then some (Value.c_function s) else get (Key.name s) t)
get-register_all s [] t = refl
get-register_all s (n ∷ ns) t =
    get-register_all s ns (put (Key.name n) (Value.c_function n) t)
    ∙ merge (str_eq s n) (is_among s ns) (get-put_case s n t)
  where
    merge :
        (b c : Bool) {o : Option Value}
        → o ≡ (if b then some (Value.c_function s) else get (Key.name s) t)
        → (if c then some (Value.c_function s) else o)
          ≡ (if b || c then some (Value.c_function s) else get (Key.name s) t)
    merge true true e = refl
    merge false true e = refl
    merge true false e = e
    merge false false e = e
