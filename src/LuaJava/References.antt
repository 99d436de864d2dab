-- ===== src/LuaJava/References.antt =====
-- The signatures of classes and arrays, which the C code tells by their first character.
use text.Mathlib.TextPositions.{slice-append_left}
use Prim.Native.String.{◌++◌}
use yellow_tree.Common.{
  Bool, true, false, ◌||◌, String, str_eq, ◌≡◌, refl, inl, inr, Bool-cases, subst, arith,
}
use yellow_tree.LuaJava.Types.{first}
use yellow_tree.LuaJava.Local.{is_int_type}
use yellow_tree.Runtime.Lookup.{str_eq-true}

abbrev pub is_reference : String → Bool
is_reference s = str_eq (first s) "L" || str_eq (first s) "["

pub class-IsReference : (s : String) → is_reference ("L" ++ s) ≡ true
class-IsReference s = let e : first ("L" ++ s) ≡ "L" = slice-append_left "L" s in rw e refl

pub array-IsReference : (s : String) → is_reference ("[" ++ s) ≡ true
array-IsReference s = let e : first ("[" ++ s) ≡ "[" = slice-append_left "[" s in rw e refl

-- A signature of a class or an array is none of the letters.
pub str_eq-reference :
    (s c : String) → is_reference s ≡ true → is_reference c ≡ false → str_eq s c ≡ false
str_eq-reference s c h n = elim (Bool-cases (str_eq s c)) [
  | inl e ↦
      (let k : is_reference c ≡ true = subst (λ t. is_reference t ≡ true) (str_eq-true s c e) h in
        absurd (ground arith))
  | inr e ↦ e
]

pub is_int_type-reference : (s : String) → is_reference s ≡ true → is_int_type s ≡ false
is_int_type-reference s h =
    rw
      (
        str_eq-reference s "Z" h refl,
        str_eq-reference s "B" h refl,
        str_eq-reference s "C" h refl,
        str_eq-reference s "S" h refl,
        str_eq-reference s "I" h refl,
      )
      refl
