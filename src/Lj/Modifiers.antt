-- ===== src/Lj/Modifiers.antt =====
-- lua_java/lj_field.c and lua_java/lj_method.c: the tables of modifiers. The flags are those of the
-- JVM specification, tables 4.5 and 4.6, which the source refers to.
use yellow_tree.Common.{ℕ, Bool, not, ◌==◌, ◌^◌}
use yellow_tree.Common.Int.{ℤ}
use yellow_tree.Runtime.Value.{Value}
use yellow_tree.Runtime.Host.{Host}
use yellow_tree.Runtime.World.{Cmd, pure, ◌>>=◌, ◌>>◌}
use yellow_tree.Runtime.Stack.{push, lua_pop, lua_newtable, lua_setfield, check_integer}
use Prim.Native.Nat.{bit_and}
use yellow_tree.Common.Int.{bits}

abbrev pub acc_public : ℕ
acc_public = 0x0001

abbrev pub acc_private : ℕ
acc_private = 0x0002

abbrev pub acc_protected : ℕ
acc_protected = 0x0004

abbrev pub acc_static : ℕ
acc_static = 0x0008

abbrev pub acc_final : ℕ
acc_final = 0x0010

abbrev pub acc_synchronized : ℕ
acc_synchronized = 0x0020

abbrev pub acc_volatile : ℕ
acc_volatile = 0x0040

abbrev pub acc_bridge : ℕ
acc_bridge = 0x0040

abbrev pub acc_transient : ℕ
acc_transient = 0x0080

abbrev pub acc_varargs : ℕ
acc_varargs = 0x0080

abbrev pub acc_native : ℕ
acc_native = 0x0100

abbrev pub acc_abstract : ℕ
acc_abstract = 0x0400

abbrev pub acc_strict : ℕ
acc_strict = 0x0800

abbrev pub acc_synthetic : ℕ
acc_synthetic = 0x1000

abbrev pub acc_enum : ℕ
acc_enum = 0x4000

-- `modifiers & flag` as a truth value, on a `lua_Integer` of 64 bits
unfoldable pub has_flag : ℤ → ℕ → Bool
has_flag modifiers flag = not (bit_and (bits (2 ^ 64) modifiers) flag == 0)

module _ {J : Type 0} ⦃host : Host J⦄ where
  unfoldable pub lj_get_field_modifiers_table : Cmd J ℕ
  unfolding has_flag
  lj_get_field_modifiers_table = do
    modifiers ← check_integer 1
    lua_pop 1
    lua_newtable
    push (Value.boolean (has_flag modifiers acc_public))
    lua_setfield "public"
    push (Value.boolean (has_flag modifiers acc_private))
    lua_setfield "private"
    push (Value.boolean (has_flag modifiers acc_protected))
    lua_setfield "protected"
    push (Value.boolean (has_flag modifiers acc_static))
    lua_setfield "static"
    push (Value.boolean (has_flag modifiers acc_final))
    lua_setfield "final"
    push (Value.boolean (has_flag modifiers acc_synchronized))
    lua_setfield "volatile"
    push (Value.boolean (has_flag modifiers acc_transient))
    lua_setfield "transient"
    push (Value.boolean (has_flag modifiers acc_synthetic))
    lua_setfield "synthetic"
    push (Value.boolean (has_flag modifiers acc_enum))
    lua_setfield "enum"
    pure 1

  unfoldable pub lj_get_method_modifiers_table : Cmd J ℕ
  unfolding has_flag
  lj_get_method_modifiers_table = do
    modifiers ← check_integer 1
    lua_pop 1
    lua_newtable
    push (Value.boolean (has_flag modifiers acc_public))
    lua_setfield "public"
    push (Value.boolean (has_flag modifiers acc_private))
    lua_setfield "private"
    push (Value.boolean (has_flag modifiers acc_protected))
    lua_setfield "protected"
    push (Value.boolean (has_flag modifiers acc_static))
    lua_setfield "static"
    push (Value.boolean (has_flag modifiers acc_final))
    lua_setfield "final"
    push (Value.boolean (has_flag modifiers acc_synchronized))
    lua_setfield "synchronized"
    push (Value.boolean (has_flag modifiers acc_bridge))
    lua_setfield "bridge"
    push (Value.boolean (has_flag modifiers acc_varargs))
    lua_setfield "varargs"
    push (Value.boolean (has_flag modifiers acc_native))
    lua_setfield "native"
    push (Value.boolean (has_flag modifiers acc_abstract))
    lua_setfield "abstract"
    push (Value.boolean (has_flag modifiers acc_strict))
    lua_setfield "strict"
    push (Value.boolean (has_flag modifiers acc_synthetic))
    lua_setfield "synthetic"
    pure 1
