-- ===== src/LuaJava/Arguments.antt =====
-- How `lj_call_method` reads its arguments: pairs of a type and a value on the stack.
use yellow_tree.Common.{
  ℕ, zero, suc, ◌+◌, ◌*◌, ◌-◌, ◌≤◌, ◌^◌, Bool, false, String, none, some, List, [], ◌∷◌, ◌≡◌, refl,
  arith, ◌∙◌, ap, get_elem?, length, drop, ◌==◌,
}
use yellow_tree.Common.Int.{ℤ, narrow, narrow_unsigned}
use yellow_tree.Runtime.Value.{Value, Ptr, JValue, object}
use yellow_tree.Runtime.Host.{Host}
use yellow_tree.Runtime.World.{World, ok}
use yellow_tree.Runtime.Stack.{arg}
use yellow_tree.LuaJava.Call.{check_argument, arguments_loop}

-- The stack after values have been pushed on it, one after the other.
abbrev pub stacked : List Value → List Value → List Value
stacked [] s = s
stacked (v ∷ vs) s = stacked vs (v ∷ s)

pub length-stacked : (vs s : List Value) → length (stacked vs s) ≡ length vs + length s
length-stacked [] s = omega arith
length-stacked (v ∷ vs) s = omega (arith, length-stacked vs (v ∷ s))

get-stacked : (vs s : List Value) (k : ℕ) → get_elem? (stacked vs s) (length vs + k) ≡ get_elem? s k
get-stacked [] s k = ap (get_elem? s) (omega arith)
get-stacked (v ∷ vs) s k =
    let e : suc (length vs) + k ≡ length vs + suc k = omega arith in
    ap (get_elem? (stacked vs (v ∷ s))) e ∙ get-stacked vs (v ∷ s) (suc k)

pub arg-stacked : (v : Value) (vs s : List Value) → arg (length s + 1) (stacked (v ∷ vs) s) ≡ some v
arg-stacked v vs s =
    let z : (length s + 1 == 0) ≡ false = ground arith in
    let e : length (stacked vs (v ∷ s)) - (length s + 1) ≡ length vs + 0 =
      omega (arith, length-stacked vs (v ∷ s)) in
    rw z (ap (get_elem? (stacked vs (v ∷ s))) e ∙ get-stacked vs (v ∷ s) 0)

pub drop-all : (n : ℕ) (s : List Value) → length s ≤ n → drop n s ≡ []
drop-all zero [] h = refl
drop-all zero (v ∷ s) h = absurd (omega arith)
drop-all (suc n) [] h = refl
drop-all (suc n) (v ∷ s) h = drop-all n s (omega arith)

-- The arguments of a method, by the type that stands before each.
pub data Argument : Type 0 where
  object_argument : Ptr → Argument
  null_argument : Argument
  boolean_argument : Bool → Argument
  byte_argument char_argument short_argument int_argument long_argument : ℤ → Argument
  float_argument double_argument : ℕ → Argument
  string_argument : String → Argument

abbrev pub type_name : Argument → String
type_name (object_argument p) = "L"
type_name null_argument = "V"
type_name (boolean_argument b) = "Z"
type_name (byte_argument n) = "B"
type_name (char_argument n) = "C"
type_name (short_argument n) = "S"
type_name (int_argument n) = "I"
type_name (long_argument n) = "J"
type_name (float_argument x) = "F"
type_name (double_argument x) = "D"
type_name (string_argument s) = "STR"

abbrev pub lua_value : Argument → Value
lua_value (object_argument p) = object p
lua_value null_argument = Value.nil
lua_value (boolean_argument b) = Value.boolean b
lua_value (byte_argument n) = Value.integer n
lua_value (char_argument n) = Value.integer n
lua_value (short_argument n) = Value.integer n
lua_value (int_argument n) = Value.integer n
lua_value (long_argument n) = Value.integer n
lua_value (float_argument x) = Value.number x
lua_value (double_argument x) = Value.number x
lua_value (string_argument s) = Value.string s

-- What JNI is given for an argument: only a text needs a new Java object.
abbrev pub jvalue : {J : Type 0} → Host J → Argument → J → JValue × J
jvalue host (object_argument p) j = (JValue.l (some p), j)
jvalue host null_argument j = (JValue.l none, j)
jvalue host (boolean_argument b) j = (JValue.z b, j)
jvalue host (byte_argument n) j = (JValue.b (narrow (2 ^ 8) n), j)
jvalue host (char_argument n) j = (JValue.c (narrow_unsigned (2 ^ 16) n), j)
jvalue host (short_argument n) j = (JValue.s (narrow (2 ^ 16) n), j)
jvalue host (int_argument n) j = (JValue.i (narrow (2 ^ 32) n), j)
jvalue host (long_argument n) j = (JValue.j n, j)
jvalue host (float_argument x) j = (JValue.f (host.lua.narrow_float x), j)
jvalue host (double_argument x) j = (JValue.d x, j)
jvalue host (string_argument s) j =
    (JValue.l (host.jni.new_string_utf s j).0, (host.jni.new_string_utf s j).1)

abbrev pub pairs : List Argument → List Value
pairs [] = []
pairs (a ∷ args) = Value.string (type_name a) ∷ lua_value a ∷ pairs args

abbrev pub jvalues : {J : Type 0} → Host J → List Argument → J → List JValue × J
jvalues host [] j = ([], j)
jvalues host (a ∷ args) j =
    let v = jvalue host a j in let rest = jvalues host args v.1 in (v.0 ∷ rest.0, rest.1)

pub length-pairs : (args : List Argument) → length (pairs args) ≡ 2 * length args
length-pairs [] = refl
length-pairs (a ∷ args) = omega (arith, length-pairs args)

module _ {J : Type 0} ⦃host : Host J⦄ where
  check_argument-value :
      (a : Argument) (i p : ℕ) (w : World J)
      → arg p w.frame ≡ some (lua_value a)
      → check_argument (type_name a) i p w
        ≡ ok (jvalue host a w.jvm).0 (record w { jvm = (jvalue host a w.jvm).1 })
  unfolding check_argument
  check_argument-value null_argument i p w h = refl
  check_argument-value _ i p w h = rw h refl

  pub arguments_loop-values :
      (args : List Argument) (i : ℕ) (s : List Value) (w : World J)
      → arguments_loop i (length s + 1) (length args) (record w { frame = stacked (pairs args) s })
        ≡ ok
            (jvalues host args w.jvm).0
            (record w { frame = stacked (pairs args) s; jvm = (jvalues host args w.jvm).1 })
  unfolding arguments_loop
  arguments_loop-values [] i s w = refl
  arguments_loop-values (a ∷ args) i s w =
      let v = record w { frame = stacked (pairs (a ∷ args)) s } in
      let n : length s + 1 + 2 ≡ length (lua_value a ∷ Value.string (type_name a) ∷ s) + 1 =
        omega arith in
      let m : length s + 1 + 1 ≡ length (Value.string (type_name a) ∷ s) + 1 = omega arith in
      let t : arg (length s + 1 + 1) v.frame ≡ some (lua_value a) =
        ap (λ q. arg q v.frame) m
        ∙ arg-stacked (lua_value a) (pairs args) (Value.string (type_name a) ∷ s) in
      rw
        (
          arg-stacked (Value.string (type_name a)) (lua_value a ∷ pairs args) s,
          check_argument-value a i (length s + 1 + 1) v t,
        )
        (rw n (
          rw
            (arguments_loop-values args (i + 1) (lua_value a ∷ Value.string (type_name a) ∷ s)
              (record w { jvm = (jvalue host a w.jvm).1 }))
            refl))
