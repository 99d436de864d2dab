-- ===== src/Event/History.antt =====
-- What setting and clearing callbacks is for, without references and tables: each callback has the
-- function that was set last, or none; and the C code keeps to it.
use yellow_tree.Common.{
  ℕ, ◌||◌, Bool, true, false, Option, none, some, List, [], ◌∷◌, ◌==◌, if◌then◌else◌, ◌≡◌, ◌≢◌,
  arith,
}
use yellow_tree.Runtime.Value.{Value, ref, no_ref}
use yellow_tree.Runtime.Host.{Host}
use yellow_tree.Runtime.World.{World}
use yellow_tree.Runtime.Stack.{value_of_ref}
use yellow_tree.Event.{read_member, read_ref}
use yellow_tree.Event.Names.{
  Callback, member_of, ref_of, handler_of, breakpoint, method_entry, method_exit, single_step,
  exception_throw, field_access, field_modification,
}

-- What Lua may do to a callback.
pub data Change : Type 0 where
  sets : Callback → (f : ℕ) → Change
  clears : Callback → Change

abbrev number_of : Callback → ℕ
number_of breakpoint = 0
number_of method_entry = 1
number_of method_exit = 2
number_of single_step = 3
number_of exception_throw = 4
number_of field_access = 5
number_of field_modification = 6

abbrev pub same : Callback → Callback → Bool
same c d = number_of c == number_of d

-- The function of each callback.
abbrev pub Functions : Type 0
Functions = Callback → Option ℕ

abbrev pub no_functions : Functions
no_functions c = none

abbrev pub apply : Change → Functions → Functions
apply (sets c f) s d = if same c d then some f else s d
apply (clears c) s d = if same c d then none else s d

abbrev pub apply_all : List Change → Functions → Functions
apply_all [] s = s
apply_all (x ∷ xs) s = apply_all xs (apply x s)

abbrev pub is_key : ℕ → List (ℕ × Value) → Bool
is_key n [] = false
is_key n ((k, v) ∷ rest) = (n == k) || is_key n rest

-- `luaL_ref` answers with a reference that is not in use, and never with 0.
pub record FreshRefs {J : Type 0} (host : Host J) : Type 0 where
  pub nonzero : (r : List (ℕ × Value)) → host.lua.fresh_ref r ≢ 0
  pub unused : (r : List (ℕ × Value)) → is_key (host.lua.fresh_ref r) r ≡ false

-- The row of a callback in the two tables keeps its function.
pub data Row {J : Type 0} (w : World J) (c : Callback) : Option ℕ → Type 0 where
  cleared :
      read_member (member_of c) w.jvmti_callbacks ≡ none
      → read_ref (ref_of c) w.callback_refs ≡ no_ref
      → Row w c none
  stored :
      (n : ℕ) {f : ℕ}
      → read_member (member_of c) w.jvmti_callbacks ≡ some (handler_of c)
      → read_ref (ref_of c) w.callback_refs ≡ ref n
      → is_key n w.registry ≡ true
      → value_of_ref (ref n) w.registry ≡ Value.function f
      → Row w c (some f)

abbrev pub KeepsTo : {J : Type 0} → World J → Functions → Type 0
KeepsTo w s = (c : Callback) → Row w c (s c)

pub same-true : (c d : Callback) → same c d ≡ true → c ≡ d
same-true breakpoint d h = ground arith
same-true _ d h = ground arith

pub same-false : (c d : Callback) → same c d ≡ false → c ≢ d
same-false breakpoint d h = ground arith
same-false _ d h = ground arith
