-- ===== src/Results/Ranges.antt =====
-- The integers that `lj_call_method` gives to JNI, whatever Lua passes.
use yellow_tree.Common.{
  ℕ, zero, suc, ◌+◌, ◌*◌, ◌<◌, ◌||◌, Bool, true, false, Option, some, none, List, String, str_eq,
  length, get_elem?, ◌≡◌, refl, ap, sym, ◌∙◌, subst, arith, if◌then◌else◌,
}
use yellow_tree.Common.Int.{ℤ}
use yellow_tree.Runtime.Value.{JValue, Value, Content, Meta}
use yellow_tree.Runtime.Host.{Host}
use yellow_tree.Runtime.World.{World, Cmd, ok, pure, ◌>>=◌}
use yellow_tree.Runtime.Stack.{
  arg, check_some, check_string, check_integer, check_number, string_of, integer_of, number_of,
  boolean_of, userdata_of, pointer_in,
}
use yellow_tree.Runtime.Answers.{Ends, returns, raises, faults, Ends-skip, Ends-chain, Ends-ok}
use yellow_tree.LuaJava.Types.{first}
use yellow_tree.LuaJava.Call.{check_argument, arguments_loop}
use yellow_tree.Results.Calls.{lua_interface_error-Ends}
use yellow_tree.Results.Narrowing.{
  IntegerType, byte, char, short, int, long, letter, Converted, narrow-8, narrow-16, narrow-32,
  narrow_unsigned-16, narrow-8_same, narrow-16_same, narrow-32_same, narrow_unsigned-16_same,
}

-- What `luaL_checkstring` and `luaL_checkinteger` take a place of the stack for.
abbrev pub text_at : {J : Type 0} → Host J → ℕ → List Value → Option String
text_at host p frame = string_of host.lua.to_string (arg p frame)

abbrev pub integer_at : {J : Type 0} → Host J → ℕ → List Value → Option ℤ
integer_at host p frame = integer_of host.lua.to_integer (arg p frame)

-- The integer at a place, converted for a type.
abbrev pub ConvertedAt : {J : Type 0} → Host J → IntegerType → ℕ → List Value → JValue → Type 0
ConvertedAt host t p frame v = (x : ℤ) × (integer_at host p frame ≡ some x) × Converted t x v

-- Argument `k` is there, and is the integer that stands above its type, converted.
abbrev pub IsArgument :
    {J : Type 0} → Host J → IntegerType → (k p : ℕ) → List Value → List JValue → Type 0
IsArgument host t k p frame args =
    (v : JValue) × (get_elem? args k ≡ some v) × ConvertedAt host t (p + 2 * k + 1) frame v

module _ {J : Type 0} ⦃host : Host J⦄ where
  check_argument-some :
      (t : IntegerType) (i p : ℕ) (x : ℤ) (w : World J)
      → integer_at host p w.frame ≡ some x
      → Ends (λ v _. ConvertedAt host t p w.frame v) (check_argument (letter t) i p w)
  unfolding check_argument
  check_argument-some byte i p x w h =
      rw h (returns (x, refl, (_, refl, narrow-8 x, narrow-8_same x)))
  check_argument-some char i p x w h =
      rw h (returns (x, refl, (_, refl, narrow_unsigned-16 x, narrow_unsigned-16_same x)))
  check_argument-some short i p x w h =
      rw h (returns (x, refl, (_, refl, narrow-16 x, narrow-16_same x)))
  check_argument-some int i p x w h =
      rw h (returns (x, refl, (_, refl, narrow-32 x, narrow-32_same x)))
  check_argument-some long i p x w h = rw h (returns (x, refl, refl))

  check_argument-none :
      (t : IntegerType) (i p : ℕ) (w : World J) {Q : JValue → World J → Type 0}
      → integer_at host p w.frame ≡ none
      → Ends Q (check_argument (letter t) i p w)
  unfolding check_argument
  check_argument-none byte i p w h = rw h raises
  check_argument-none _ i p w h = rw h raises

  check_argument-Converted :
      (t : IntegerType) (i p : ℕ) (w : World J) (o : Option ℤ)
      → integer_at host p w.frame ≡ o
      → Ends (λ v _. ConvertedAt host t p w.frame v) (check_argument (letter t) i p w)
  check_argument-Converted t i p w none h = check_argument-none t i p w h
  check_argument-Converted t i p w (some x) h = check_argument-some t i p x w h

  -- The stack is as it was where a command returns.
  abbrev KeepsFrame : {A : Type 0} → List Value → Cmd J A → Type 0
  KeepsFrame f m = (w : World J) → w.frame ≡ f → Ends (λ _ v. v.frame ≡ f) (m w)

  choice-KeepsFrame :
      {A : Type 0} (f : List Value) (b : Bool) {m n : Cmd J A}
      → KeepsFrame f m
      → KeepsFrame f n
      → KeepsFrame f (if b then m else n)
  choice-KeepsFrame f true h h' = h
  choice-KeepsFrame f false h h' = h'

  check_some-KeepsFrame :
      {A : Type 0} (n : ℕ) (expected : String) (o : Option A) (w : World J) (f : List Value)
      → w.frame ≡ f
      → Ends (λ _ v. v.frame ≡ f) (check_some n expected o w)
  check_some-KeepsFrame n expected none w f e = raises
  check_some-KeepsFrame n expected (some a) w f e = returns e

  pointer_in-KeepsFrame : (f : List Value) (c : Content) → KeepsFrame f (pointer_in {J = J} c)
  pointer_in-KeepsFrame f (Content.pointer p) w e = returns e
  pointer_in-KeepsFrame f _ w e = faults

  check_argument-KeepsFrame :
      (type : String) (i p : ℕ) (f : List Value) → KeepsFrame f (check_argument type i p)
  unfolding check_argument
  check_argument-KeepsFrame type i p f =
      let integer : (g : ℤ → JValue) → KeepsFrame f (check_integer p >>= λ v. pure (g v)) = λ g w e.
        Ends-chain (check_some-KeepsFrame p "number" (integer_at host p w.frame) w f e)
          λ v u q. returns q in
      let number : (g : ℕ → JValue) → KeepsFrame f (check_number p >>= λ v. pure (g v)) = λ g w e.
        Ends-chain
          (check_some-KeepsFrame p "number" (number_of host.lua.to_number (arg p w.frame)) w f e)
          λ v u q. returns q in
      choice-KeepsFrame f (str_eq type "V") (λ w e. returns e)
        (choice-KeepsFrame f (str_eq (first type) "L" || str_eq (first type) "[")
          (λ w e.
            Ends-chain
              (Ends-chain
                (check_some-KeepsFrame p "jobject" (userdata_of Meta.jobject (arg p w.frame)) w f e)
                λ c u q. pointer_in-KeepsFrame f c u q)
              λ v u q. returns q)
          (choice-KeepsFrame f (str_eq type "STR")
            (λ w e.
              Ends-chain (check_some-KeepsFrame p "string" (text_at host p w.frame) w f e)
                λ v u q. returns q)
            (choice-KeepsFrame f (str_eq type "Z")
              (λ w e.
                Ends-chain (check_some-KeepsFrame p "boolean" (boolean_of (arg p w.frame)) w f e)
                  λ v u q. returns q)
              (choice-KeepsFrame f (str_eq type "B") (integer _) (
                choice-KeepsFrame f (str_eq type "C") (integer _) (
                  choice-KeepsFrame f (str_eq type "S") (integer _) (
                    choice-KeepsFrame f (str_eq type "I") (integer _) (
                      choice-KeepsFrame f (str_eq type "J") (integer _) (
                        choice-KeepsFrame f (str_eq type "F") (number _) (
                          choice-KeepsFrame f (str_eq type "D") (number _)
                            (λ w e. lua_interface_error-Ends _ w)))))))))))

  arguments_loop-length :
      (n i p : ℕ) (w : World J) → Ends (λ vs _. length vs ≡ n) (arguments_loop i p n w)
  unfolding arguments_loop
  arguments_loop-length zero i p w = returns refl
  arguments_loop-length (suc n) i p w = Ends-skip (check_string p w) λ type w.
      Ends-skip (check_argument type i (p + 1) w)
        λ v w. Ends-chain (arguments_loop-length n (i + 1) (p + 2) w) λ vs w q. returns (ap suc q)

  arguments_loop-Converted :
      (t : IntegerType) (k n i p : ℕ) (f : List Value) (w : World J)
      → w.frame ≡ f
      → k < n
      → text_at host (p + 2 * k) f ≡ some (letter t)
      → Ends (λ args _. IsArgument host t k p f args) (arguments_loop i p n w)
  unfolding arguments_loop
  arguments_loop-Converted t k zero i p f w e lt h = absurd (omega arith)
  arguments_loop-Converted t zero (suc n) i p f w e lt h =
      let place : p + 2 * 0 ≡ p = omega arith in
      let above : p + 1 ≡ p + 2 * 0 + 1 = omega arith in
      let text : text_at host p w.frame ≡ some (letter t) =
        ap (text_at host p) e ∙ ap (λ q. text_at host q f) (sym place) ∙ h in
      rw text (
        Ends-chain (check_argument-Converted t i (p + 1) w _ refl) λ v u c.
          Ends-skip (arguments_loop (i + 1) (p + 2) n u) λ vs z. returns (
            v,
            refl,
            subst (λ q. ConvertedAt host t q f v) above
                (subst (λ g. ConvertedAt host t (p + 1) g v) e c),
          ))
  arguments_loop-Converted t (suc k) (suc n) i p f w e lt h =
      let place : p + 2 + 2 * k ≡ p + 2 * suc k = omega arith in
      Ends-chain (check_some-KeepsFrame p "string" (text_at host p w.frame) w f e) λ type u q.
        Ends-chain (check_argument-KeepsFrame type i (p + 1) f u q) λ v z r.
          Ends-chain
            (arguments_loop-Converted t k n (i + 1) (p + 2) f z r (omega arith)
              (ap (λ q. text_at host q f) place ∙ h))
            λ vs y found.
              returns
                (found.0, found.1, subst (λ q. ConvertedAt host t (q + 1) f found.0) place found.2)

  -- Whatever Lua passes, when the loop of lj_call_method that reads the arguments returns, it has
  -- read as many as it was asked for. If the text in the place for the type of argument k is one
  -- of the letters of Java's integer types, the value passed is the integer that stands above it,
  -- stored in the member of that type: for a byte, char, short or int the one number in the range
  -- of the type that differs from it by a multiple of 2 to the power of the type's width, for a
  -- long the integer itself.
  pub jni_values-InRange :
      (t : IntegerType) (i p n k : ℕ) (args : List JValue) (w v : World J)
      → k < n
      → text_at host (p + 2 * k) w.frame ≡ some (letter t)
      → arguments_loop i p n w ≡ ok args v
      → (length args ≡ n) × IsArgument host t k p w.frame args
  jni_values-InRange t i p n k args w v lt h e = (
    Ends-ok (arguments_loop-length n i p w) e,
    Ends-ok (arguments_loop-Converted t k n i p w.frame w refl lt h) e,
  )
