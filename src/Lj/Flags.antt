-- ===== src/Lj/Flags.antt =====
-- What the two tables of modifiers hold, in terms of the bits of the number.
use yellow_tree.Common.{
  ℕ, zero, suc, ◌*◌, ◌/◌, ◌%◌, ◌^◌, ◌<◌, Bool, true, false, not, ◌==◌, List, [], ◌∷◌, String, some,
  ◌≡◌, refl, arith, ◌∙◌, ap,
}
use yellow_tree.Common.Bits.{bit_and-power, two_pow_pos}
use yellow_tree.Common.Int.{ℤ, bits}
use yellow_tree.Runtime.Value.{Value, Fields, empty, entry, Key, get}
use yellow_tree.Runtime.Host.{Host}
use yellow_tree.Runtime.World.{World, ok, enter}
use yellow_tree.Lj.Modifiers.{has_flag, lj_get_field_modifiers_table, lj_get_method_modifiers_table}

-- Bit `k` of a 64 bit integer.
abbrev pub bit_at : ℕ → ℤ → Bool
bit_at k m = (bits (2 ^ 64) m / 2 ^ k) % 2 == 1

flag_test : (q p : ℕ) → 0 < p → q < 2 → not (q * p == 0) ≡ (q == 1)
flag_test zero p h lt = ground arith
flag_test (suc zero) p h lt = ground arith
flag_test (suc (suc q)) p h lt = absurd (omega arith)

pub has_flag-power : (m : ℤ) (k : ℕ) → has_flag m (2 ^ k) ≡ bit_at k m
unfolding has_flag
has_flag-power m k =
    ap (λ n. not (n == 0)) (bit_and-power k (bits (2 ^ 64) m))
    ∙ flag_test ((bits (2 ^ 64) m / 2 ^ k) % 2) (2 ^ k) (two_pow_pos k) (omega arith)

-- A table with one Boolean for each name: the bit at the place given.
abbrev pub flag_table : List (String × ℕ) → ℤ → Fields
flag_table [] m = empty
flag_table ((s, k) ∷ flags) m = entry (Key.name s) (Value.boolean (bit_at k m)) (flag_table flags m)

abbrev pub field_flags : List (String × ℕ)
field_flags =
    ("public", 0)
    ∷ ("private", 1)
    ∷ ("protected", 2)
    ∷ ("static", 3)
    ∷ ("final", 4)
    ∷ ("volatile", 5)
    ∷ ("transient", 7)
    ∷ ("synthetic", 12)
    ∷ ("enum", 14)
    ∷ []

abbrev pub method_flags : List (String × ℕ)
method_flags =
    ("public", 0)
    ∷ ("private", 1)
    ∷ ("protected", 2)
    ∷ ("static", 3)
    ∷ ("final", 4)
    ∷ ("synchronized", 5)
    ∷ ("bridge", 6)
    ∷ ("varargs", 7)
    ∷ ("native", 8)
    ∷ ("abstract", 10)
    ∷ ("strict", 11)
    ∷ ("synthetic", 12)
    ∷ []

module _ {J : Type 0} ⦃host : Host J⦄ (m : ℤ) (w : World J) where
  -- The table of a field's modifiers holds nine Booleans, each a bit of the 64 bit argument at a
  -- fixed place; volatile is bit 5.
  pub field_table-bits :
      lj_get_field_modifiers_table (enter (Value.integer m ∷ []) w)
      ≡ ok 1 (record w { frame = Value.table (flag_table field_flags m) ∷ [] })
  unfolding lj_get_field_modifiers_table
  field_table-bits =
      rw
        (
          has_flag-power m 0,
          has_flag-power m 1,
          has_flag-power m 2,
          has_flag-power m 3,
          has_flag-power m 4,
          has_flag-power m 5,
          has_flag-power m 7,
          has_flag-power m 12,
          has_flag-power m 14,
        )
        refl

  -- The table of a method's modifiers holds twelve Booleans, each a bit of the 64 bit argument at
  -- a fixed place.
  pub method_table-bits :
      lj_get_method_modifiers_table (enter (Value.integer m ∷ []) w)
      ≡ ok 1 (record w { frame = Value.table (flag_table method_flags m) ∷ [] })
  unfolding lj_get_method_modifiers_table
  method_table-bits =
      rw
        (
          has_flag-power m 0,
          has_flag-power m 1,
          has_flag-power m 2,
          has_flag-power m 3,
          has_flag-power m 4,
          has_flag-power m 5,
          has_flag-power m 6,
          has_flag-power m 7,
          has_flag-power m 8,
          has_flag-power m 10,
          has_flag-power m 11,
          has_flag-power m 12,
        )
        refl

  -- For a volatile field, whose modifiers have bit 6 and not bit 5, the table of its modifiers
  -- says that it is not volatile.
  pub volatile_misread :
      bit_at 6 m ≡ true
      → bit_at 5 m ≡ false
      → (t : Fields) × (lj_get_field_modifiers_table (enter (Value.integer m ∷ []) w)
          ≡ ok 1 (record w { frame = Value.table t ∷ [] }))
        × (get (Key.name "volatile") t ≡ some (Value.boolean false))
  volatile_misread set unset =
      (flag_table field_flags m, field_table-bits, ap (λ b. some (Value.boolean b)) unset)
