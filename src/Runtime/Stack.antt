-- ===== src/Runtime/Stack.antt =====
-- The stack of a Lua state as the C API documents it (Lua manual, section 4), for one call of a C
-- function: positive indices count from the first argument, negative ones from the top.
use yellow_tree.Common.{
  ℕ, ◌-◌, Bool, Option, none, some, List, [], ◌∷◌, String, length, get_elem?, drop, if◌then◌else◌,
  ◌==◌,
}
use yellow_tree.Common.Int.{ℤ}
use yellow_tree.Runtime.Value.{
  Ptr, Value, Fields, Key, Meta, Content, Ref, ref_nil, ref, same_meta, put,
}
use yellow_tree.Runtime.Host.{Host}
use yellow_tree.Runtime.World.{World, Outcome, Cmd, ok, raised, undefined, ◌>>=◌}

-- The value at a positive index; `none` is LUA_TNONE.
abbrev pub arg : ℕ → List Value → Option Value
arg n xs = if n == 0 then none else get_elem? xs (length xs - n)

module _ {J : Type 0} where
  abbrev pub push : Value → Cmd J (Unit {0})
  push v w = ok tt (record w { frame = v ∷ w.frame })

  abbrev pub lua_pop : ℕ → Cmd J (Unit {0})
  lua_pop n w = ok tt (record w { frame = drop n w.frame })

  abbrev pub lua_newtable : Cmd J (Unit {0})
  lua_newtable = push (Value.table Fields.empty)

  abbrev pub lua_error : {A : Type 0} → Value → Cmd J A
  lua_error v w = raised v w

  -- `lua_setfield(L, -2, k)` and `lua_rawseti(L, -2, i)`: the table stands below the value.
  abbrev pub set_in : Key → List Value → World J → Outcome J (Unit {0})
  set_in k (v ∷ Value.table t ∷ rest) w =
      ok tt (record w { frame = Value.table (put k v t) ∷ rest })
  set_in k _ w = undefined w

  abbrev pub lua_setfield : String → Cmd J (Unit {0})
  lua_setfield k w = set_in (Key.name k) w.frame w

  abbrev pub lua_rawseti : ℕ → Cmd J (Unit {0})
  lua_rawseti i w = set_in (Key.index i) w.frame w

  -- `lua_rawset(L, -3)` with a text for its key
  abbrev pub raw_set_in : List Value → World J → Outcome J (Unit {0})
  raw_set_in (v ∷ Value.string k ∷ Value.table t ∷ rest) w =
      ok tt (record w { frame = Value.table (put (Key.name k) v t) ∷ rest })
  raw_set_in _ w = undefined w

  abbrev pub lua_rawset : Cmd J (Unit {0})
  lua_rawset w = raw_set_in w.frame w

  -- `lua_setmetatable(L, -2)`
  abbrev set_meta_in : List Value → World J → Outcome J (Unit {0})
  set_meta_in (Value.metatable m ∷ Value.userdata _ c ∷ rest) w =
      ok tt (record w { frame = Value.userdata (some m) c ∷ rest })
  set_meta_in _ w = undefined w

  abbrev pub lua_setmetatable : Cmd J (Unit {0})
  lua_setmetatable w = set_meta_in w.frame w

-- `lua_rawgeti(L, LUA_REGISTRYINDEX, ref)` on the values that `luaL_ref` kept.
abbrev find_ref : ℕ → List (ℕ × Value) → Value
find_ref n [] = Value.nil
find_ref n ((k, v) ∷ rest) = if n == k then v else find_ref n rest

abbrev pub value_of_ref : Ref → List (ℕ × Value) → Value
value_of_ref (ref n) registry = find_ref n registry
value_of_ref _ registry = Value.nil

-- The parts of an argument that the checks hand out.
abbrev pub userdata_of : Meta → Option Value → Option Content
userdata_of m (some (Value.userdata (some k) c)) = if same_meta m k then some c else none
userdata_of m _ = none

abbrev pub boolean_of : Option Value → Option Bool
boolean_of (some (Value.boolean b)) = some b
boolean_of _ = none

abbrev pub function_of : Option Value → Option Value
function_of (some (Value.function n)) = some (Value.function n)
function_of (some (Value.c_function s)) = some (Value.c_function s)
function_of _ = none

-- A conversion is asked where the value has another type.
abbrev pub integer_of : (Value → Option ℤ) → Option Value → Option ℤ
integer_of convert (some (Value.integer n)) = some n
integer_of convert (some v) = convert v
integer_of convert none = none

abbrev pub number_of : (Value → Option ℕ) → Option Value → Option ℕ
number_of convert (some (Value.number x)) = some x
number_of convert (some v) = convert v
number_of convert none = none

abbrev pub string_of : (Value → Option String) → Option Value → Option String
string_of convert (some (Value.string s)) = some s
string_of convert (some v) = convert v
string_of convert none = none

module _ {J : Type 0} ⦃host : Host J⦄ where
  -- A failed check raises an error that names the argument.
  abbrev pub check_some : {A : Type 0} → ℕ → String → Option A → Cmd J A
  check_some n expected (some a) w = ok a w
  check_some n expected none w = raised (Value.string (host.lua.argument_error n expected)) w

  abbrev pub check_integer : ℕ → Cmd J ℤ
  check_integer n w = check_some n "number" (integer_of host.lua.to_integer (arg n w.frame)) w

  abbrev pub check_number : ℕ → Cmd J ℕ
  check_number n w = check_some n "number" (number_of host.lua.to_number (arg n w.frame)) w

  abbrev pub check_string : ℕ → Cmd J String
  check_string n w = check_some n "string" (string_of host.lua.to_string (arg n w.frame)) w

  abbrev pub check_boolean : ℕ → Cmd J Bool
  check_boolean n w = check_some n "boolean" (boolean_of (arg n w.frame)) w

  abbrev pub check_function : ℕ → Cmd J Value
  check_function n w = check_some n "function" (function_of (arg n w.frame)) w

  -- `*(jobject *)luaL_checkudata(L, n, "jobject")`, and so for the ids and monitors
  abbrev pub pointer_in : Content → Cmd J Ptr
  pointer_in (Content.pointer p) w = ok p w
  pointer_in _ w = undefined w

  abbrev pub check_object : ℕ → Cmd J Ptr
  check_object n w =
      (check_some n "jobject" (userdata_of Meta.jobject (arg n w.frame)) >>= pointer_in) w

  abbrev pub check_method : ℕ → Cmd J Ptr
  check_method n w =
      (check_some n "jmethod_id" (userdata_of Meta.jmethod_id (arg n w.frame)) >>= pointer_in) w

  abbrev pub check_monitor : ℕ → Cmd J Ptr
  check_monitor n w =
      (check_some n "jmonitor" (userdata_of Meta.jmonitor (arg n w.frame)) >>= pointer_in) w

  -- `(lj_field_id *)luaL_checkudata(L, n, "jfield_id")`, as field id and class
  abbrev field_in : Content → Cmd J (Ptr × Ptr)
  field_in (Content.field f c) w = ok (f, c) w
  field_in _ w = undefined w

  abbrev pub check_field : ℕ → Cmd J (Ptr × Ptr)
  check_field n w =
      (check_some n "jfield_id" (userdata_of Meta.jfield_id (arg n w.frame)) >>= field_in) w

  -- `luaL_ref(L, LUA_REGISTRYINDEX)` takes the top value away.
  abbrev pub ref_top : List Value → World J → Outcome J Ref
  ref_top [] w = undefined w
  ref_top (Value.nil ∷ rest) w = ok ref_nil (record w { frame = rest })
  ref_top (v ∷ rest) w =
      let n = host.lua.fresh_ref w.registry in
      ok (ref n) (record w { frame = rest; registry = (n, v) ∷ w.registry })

  abbrev pub lua_ref : Cmd J Ref
  lua_ref w = ref_top w.frame w

  -- `luaL_error`
  abbrev pub lua_error_message : {A : Type 0} → String → Cmd J A
  lua_error_message msg w = raised (Value.string (host.lua.with_position msg)) w
