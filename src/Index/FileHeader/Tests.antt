-- ===== src/Index/FileHeader/Tests.antt =====
-- The header of an index on two columns.
use db2024_main.Common.{
  [], arith, negsuc, pos, refl, replicate, ◌∷◌, ◌≡◌, List, assertion_failed, false, int_eq, ok,
  raise, ℕ, ℤ,
}
use db2024_main.Catalog.{type_int, type_string}
use db2024_main.Index.FileHeader.{IxFileHdr, deserialize, serialize, update_tot_len}
use db2024_main.Index.FileHeader.Bytes.{deserialize-serialize}

abbrev two_columns : IxFileHdr
two_columns = record {
  first_free_page_no = negsuc 0;
  num_pages = pos 3;
  root_page = pos 2;
  col_num = 2;
  col_types = type_int ∷ type_string ∷ [];
  col_lens = pos 4 ∷ pos 8 ∷ [];
  col_tot_len = pos 12;
  btree_order = pos 203;
  keys_size = pos 2448;
  first_leaf = pos 2;
  last_leaf = pos 2;
  tot_len = pos 56;
}

-- `IxFileHdr()`; the constructor leaves the fields that are read later unset.
abbrev no_columns : IxFileHdr
no_columns = record {
  first_free_page_no = pos 0;
  num_pages = pos 0;
  root_page = pos 0;
  col_num = 0;
  col_types = [];
  col_lens = [];
  col_tot_len = pos 0;
  btree_order = pos 0;
  keys_size = pos 0;
  first_leaf = pos 0;
  last_leaf = pos 0;
  tot_len = pos 0;
}

deserialize-serialize_example :
    ((src : List ℕ) × (serialize two_columns (replicate 60 7) ≡ ok src)
      × (deserialize no_columns src ≡ ok two_columns))
    × ((other : ℤ)
        → int_eq (pos 56) other ≡ false
        → serialize (record two_columns { tot_len = other }) (replicate 60 7)
          ≡ raise assertion_failed)
unfolding update_tot_len
deserialize-serialize_example =
    deserialize-serialize no_columns two_columns (replicate 60 7) (refl, refl)
      (record {
        first_free_page_no = omega arith;
        num_pages = omega arith;
        root_page = omega arith;
        col_num = omega arith;
        types = refl;
        lens = refl;
        each_len = (omega arith, (omega arith, tt));
        col_tot_len = omega arith;
        btree_order = omega arith;
        keys_size = omega arith;
        first_leaf = omega arith;
        last_leaf = omega arith;
        tot_len = omega arith;
        has_tot_len = refl;
      })
