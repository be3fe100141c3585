-- ===== src/Index/Node/Tests.antt =====
-- A node of an index on an int and a string of two bytes, with the keys (10, "a"), (10, "b") and
-- (-5, "c") in their order.
use db2024_main.Common.{
  ℕ, [], arith, false, if◌then◌else◌, int_bytes, int_eq, int_lt, ltb, negsuc, pos, read_int, refl,
  suc, zero, ℤ, ◌++◌, ◌+◌, ◌==◌, ◌∷◌, ◌≡◌, is_some, leb, none, some, ◌<◌, ◌||◌,
}
use db2024_main.Catalog.{type_int, type_string}
use db2024_main.Query.Samples.{sample_floats}
use db2024_main.Index.Order.{KeyOrder, ltb_irrefl, ltb_trans}
use db2024_main.Index.Compare.{ix_compare}
use db2024_main.Index.Compare.Ordered.{FloatOrder, Key, ix_order}
use db2024_main.Index.Node.{IxNode, leaf_lookup, internal_lookup, insert, remove}
use db2024_main.Index.Node.Sorted.{IsSorted, IsAt, leaf_lookup_lem, internal_lookup_lem}
use db2024_main.Index.Node.Insert.{insert_lem}
use db2024_main.Index.Node.Remove.{remove_lem}

ltb_weak :
    (x y z : ℕ)
    → Unit {0}
    → Unit {0}
    → Unit {0}
    → ltb x y ≡ false
    → ltb y x ≡ false
    → (ltb x z ≡ ltb y z) × (ltb z x ≡ ltb z y)
ltb_weak x y z p q r h k = ground arith

abbrev sample_float_order : FloatOrder sample_floats
sample_float_order = record {
  IsNumber = λ x. Unit;
  lt_irrefl = ltb_irrefl;
  lt_trans = ltb_trans;
  lt_same = ltb_weak;
}

abbrev IntTextKey : Type 0
IntTextKey = Key sample_floats sample_float_order (type_int ∷ type_string ∷ []) (4 ∷ 2 ∷ [])

abbrev int_text_order : KeyOrder IntTextKey
int_text_order =
    ix_order sample_floats sample_float_order (type_int ∷ type_string ∷ []) (4 ∷ 2 ∷ [])

abbrev key : ℤ → ℕ → IntTextKey
key i c = (int_bytes i ++ c ∷ 0 ∷ [], (tt, (tt, tt)))

abbrev three : ℕ → IntTextKey
three i =
    if i == 0 then key (negsuc 4) b'c' else if i == 1 then key (pos 10) b'a' else key (pos 10) b'b'

abbrev three_keys : IxNode IntTextKey ℕ
three_keys = record { num_key = 3; max_size = 5; keys = three; rids = λ i. i + 100 }

three_keys-IsSorted : IsSorted int_text_order three_keys
unfolding ix_compare int_bytes read_int int_lt int_eq
three_keys-IsSorted zero zero lt in_use = absurd (omega arith)
three_keys-IsSorted zero (suc zero) lt in_use = refl
three_keys-IsSorted zero (suc (suc zero)) lt in_use = refl
three_keys-IsSorted zero (suc (suc (suc j))) lt in_use = absurd (omega arith)
three_keys-IsSorted (suc zero) zero lt in_use = absurd (omega arith)
three_keys-IsSorted (suc zero) (suc zero) lt in_use = absurd (omega arith)
three_keys-IsSorted (suc zero) (suc (suc zero)) lt in_use = refl
three_keys-IsSorted (suc zero) (suc (suc (suc j))) lt in_use = absurd (omega arith)
three_keys-IsSorted (suc (suc i)) j lt in_use = absurd (omega arith)

leaf_lookup_lem_example :
    ((i : ℕ)
      → IsAt int_text_order i (key (pos 10) b'a') three_keys
      → leaf_lookup int_text_order (key (pos 10) b'a') three_keys ≡ some (i + 100))
    × (((i : ℕ) → ¬ IsAt int_text_order i (key (pos 10) b'a') three_keys)
        → leaf_lookup int_text_order (key (pos 10) b'a') three_keys ≡ none)
leaf_lookup_lem_example =
    leaf_lookup_lem int_text_order (key (pos 10) b'a') three_keys three_keys-IsSorted

internal_lookup_lem_example :
    (i : ℕ) × (internal_lookup int_text_order (key (pos 3) b'a') three_keys ≡ i + 100)
    × (i < 3)
    × ((j : ℕ)
        → 0 < j
        → j < 3
        → (int_text_order.less (three j) (key (pos 3) b'a')
            || int_text_order.same (three j) (key (pos 3) b'a'))
          ≡ leb j i)
internal_lookup_lem_example =
    internal_lookup_lem int_text_order (key (pos 3) b'a') three_keys three_keys-IsSorted
      (omega arith)

insert_lem_example :
    (leaf_lookup int_text_order (key (pos 3) b'a') three_keys ≡ none
      → (m : IxNode IntTextKey ℕ) × (insert int_text_order (key (pos 3) b'a') 7 three_keys ≡ some m)
        × IsSorted int_text_order m
        × (m.num_key ≡ 4)
        × ((k : IntTextKey)
            → leaf_lookup int_text_order k m ≡ (
                if int_text_order.same (key (pos 3) b'a') k
                then some 7
                else leaf_lookup int_text_order k three_keys)))
    × ((v : ℕ)
        → leaf_lookup int_text_order (key (pos 3) b'a') three_keys ≡ some v
        → insert int_text_order (key (pos 3) b'a') 7 three_keys ≡ some three_keys)
insert_lem_example =
    insert_lem int_text_order (key (pos 3) b'a') 7 three_keys three_keys-IsSorted (omega arith)

remove_lem_example :
    (m : IxNode IntTextKey ℕ) × (remove int_text_order (key (pos 10) b'a') three_keys ≡ some m)
    × IsSorted int_text_order m
    × ((k : IntTextKey)
        → leaf_lookup int_text_order k m ≡ (
            if int_text_order.same (key (pos 10) b'a') k
            then none
            else leaf_lookup int_text_order k three_keys))
    × (m.num_key
          + (if is_some (leaf_lookup int_text_order (key (pos 10) b'a') three_keys) then 1 else 0)
        ≡ 3)
remove_lem_example = remove_lem int_text_order (key (pos 10) b'a') three_keys three_keys-IsSorted
