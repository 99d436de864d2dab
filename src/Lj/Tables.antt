-- ===== src/Lj/Tables.antt =====
-- The tables that the loops fill: the values of a list at 1, 2, 3 and so on.
use yellow_tree.Common.{
  ℕ, zero, suc, ◌+◌, ◌≤◌, none, some, List, [], ◌∷◌, ◌==◌, true, false, get_elem?, ◌≡◌, refl, arith,
  ◌∙◌, ap, sym,
}
use yellow_tree.Runtime.Value.{Value, Fields, empty, entry, Key, index, put, get}

abbrev pub rows : ℕ → List Value → Fields → Fields
rows i [] t = t
rows i (v ∷ vs) t = rows (i + 1) vs (put (index (i + 1)) v t)

pub ==_self : (n : ℕ) → (n == n) ≡ true
==_self n = ground arith

get-put_self : (i : ℕ) (v : Value) (t : Fields) → get (index i) (put (index i) v t) ≡ some v
get-put_self i v empty = rw (==_self i) refl
get-put_self i v (entry (Key.name s) x t) = get-put_self i v t
get-put_self i v (entry (index j) x t) = ground (arith, get-put_self i v t)

get-put_ne :
    (i j : ℕ) (v : Value) (t : Fields)
    → (i == j) ≡ false
    → get (index i) (put (index j) v t) ≡ get (index i) t
get-put_ne i j v empty h = rw h refl
get-put_ne i j v (entry (Key.name s) x t) h = get-put_ne i j v t h
get-put_ne i j v (entry (index k) x t) h = ground (arith, get-put_ne i j v t h)

get-rows_below :
    (i k : ℕ) (vs : List Value) (t : Fields) → k ≤ i → get (index k) (rows i vs t) ≡ get (index k) t
get-rows_below i k [] t h = refl
get-rows_below i k (v ∷ vs) t h =
    get-rows_below (i + 1) k vs (put (index (i + 1)) v t) (omega arith)
    ∙ get-put_ne k (i + 1) v t (ground arith)

get-rows_at :
    (i k : ℕ) (vs : List Value) (t : Fields)
    → get (index (i + 1 + k)) t ≡ none
    → get (index (i + 1 + k)) (rows i vs t) ≡ get_elem? vs k
get-rows_at i k [] t h = h
get-rows_at i zero (v ∷ vs) t h =
    let e : i + 1 + 0 ≡ i + 1 = omega arith in
    ap (λ n. get (index n) (rows (i + 1) vs (put (index (i + 1)) v t))) e
    ∙ get-rows_below (i + 1) (i + 1) vs (put (index (i + 1)) v t) (omega arith)
    ∙ get-put_self (i + 1) v t
get-rows_at i (suc k) (v ∷ vs) t h =
    let e : i + 1 + suc k ≡ i + 1 + 1 + k = omega arith in
    ap (λ n. get (index n) (rows (i + 1) vs (put (index (i + 1)) v t))) e
    ∙ get-rows_at (i + 1) k vs (put (index (i + 1)) v t) (
        get-put_ne (i + 1 + 1 + k) (i + 1) v t (ground arith)
        ∙ ap (λ n. get (index n) t) (sym e)
        ∙ h)

-- The table made from a list holds its element `k` at `k + 1`, and nothing beyond the last.
pub get-rows : (k : ℕ) (vs : List Value) → get (index (k + 1)) (rows 0 vs empty) ≡ get_elem? vs k
get-rows k vs =
    let e : k + 1 ≡ 0 + 1 + k = omega arith in
    ap (λ n. get (index n) (rows 0 vs empty)) e ∙ get-rows_at 0 k vs empty refl
