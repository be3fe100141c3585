-- ===== src/Index/Compare.antt =====
-- index/ix_index_handle.h: `ix_compare` on the bytes of two keys, with the order it makes in Ordered. The bytes of
-- a float are read by the parameter `fl`.
pub mod Ordered
use db2024_main.Common.{
  ℕ, ℤ, List, [], drop, get_or, if◌then◌else◌, int_eq, int_lt, ltb, negsuc, pos, read_int, suc,
  zero, ◌==◌, ◌∷◌,
}
use db2024_main.Catalog.{ColType, type_float, type_int, type_string}
use db2024_main.Query.{Floats}

-- The sign of `memcmp`.
unfoldable pub memcmp : ℕ → List ℕ → List ℕ → ℤ
memcmp zero a b = pos 0
memcmp (suc n) a b =
    let rest = memcmp n (drop 1 a) (drop 1 b) in
    if ltb (get_or a 0 0) (get_or b 0 0)
    then negsuc 0
    else if get_or a 0 0 == get_or b 0 0
    then rest
    else pos 1

module _ {F D : Type 0} (fl : Floats F D) where
  unfoldable pub compare_col : List ℕ → List ℕ → ColType → ℕ → ℤ
  unfolding memcmp
  compare_col a b type_int col_len =
      let ia = read_int a in
      let ib = read_int b in
      if int_lt ia ib then negsuc 0 else if int_lt ib ia then pos 1 else pos 0
  compare_col a b type_float col_len =
      let fa = fl.float_at a in
      let fb = fl.float_at b in
      if fl.float_lt fa fb then negsuc 0 else if fl.float_lt fb fa then pos 1 else pos 0
  compare_col a b type_string col_len = memcmp col_len a b

  -- The loop over the columns; both vectors have one entry for each.
  unfoldable pub ix_compare : List ℕ → List ℕ → List ColType → List ℕ → ℤ
  unfolding compare_col
  ix_compare a b [] col_lens = pos 0
  ix_compare a b (t ∷ col_types) [] = pos 0
  ix_compare a b (t ∷ col_types) (l ∷ col_lens) =
      let res = compare_col a b t l in
      let rest = ix_compare (drop l a) (drop l b) col_types col_lens in
      if int_eq res (pos 0) then rest else res
