-- ===== src/Index/FileHeader.antt =====
-- index/ix_defs.h: the header of an index file and its bytes on the page. `page_id_t`, `int` and
-- `ColType` take four bytes each. The number of columns is a natural number.
pub mod Bytes
mod Tests
use db2024_main.Common.{
  ℕ, ℤ, List, [], drop, int_bytes, length, map, negsuc, pos, read_int, suc, take, zero, ◌*◌, ◌++◌,
  ◌+◌, ◌∷◌, Result, assertion_failed, if◌then◌else◌, int_eq, ok, raise,
}
use db2024_main.Catalog.{ColType}
use db2024_main.Catalog.Words.{type_number, number_type}

pub record IxFileHdr : Type 0 where
  pub first_free_page_no : ℤ
  pub num_pages : ℤ
  pub root_page : ℤ
  pub col_num : ℕ
  pub col_types : List ColType
  pub col_lens : List ℤ
  pub col_tot_len : ℤ
  pub btree_order : ℤ
  pub keys_size : ℤ
  pub first_leaf : ℤ
  pub last_leaf : ℤ
  pub tot_len : ℤ

unfoldable pub update_tot_len : IxFileHdr → IxFileHdr
update_tot_len h = record h { tot_len = pos ((4 * 4 + 4 * 6) + (4 * h.col_num + 4 * h.col_num)) }

-- Integers one behind the other, as `memcpy` puts them.
unfoldable pub write_ints : List ℤ → List ℕ
write_ints [] = []
write_ints (z ∷ zs) = int_bytes z ++ write_ints zs

unfoldable pub header_bytes : IxFileHdr → List ℕ
unfolding write_ints
header_bytes h =
    write_ints (h.tot_len ∷ h.first_free_page_no ∷ h.num_pages ∷ h.root_page ∷ pos h.col_num ∷ [])
    ++ (write_ints (map (λ t. pos (type_number t)) (take h.col_num h.col_types))
        ++ (write_ints (take h.col_num h.col_lens)
            ++ write_ints
                (h.col_tot_len ∷ h.btree_order ∷ h.keys_size ∷ h.first_leaf ∷ h.last_leaf ∷ [])))

-- `assert(offset == tot_len_)`
abbrev pub unless_short : {A : Type 0} → ℕ → IxFileHdr → A → Result A
unless_short offset h a = if int_eq (pos offset) h.tot_len then ok a else raise assertion_failed

-- The buffer `dest` with the header's bytes at its start.
unfoldable pub serialize : IxFileHdr → List ℕ → Result (List ℕ)
unfolding header_bytes
serialize h dest =
    unless_short (length (header_bytes h)) h (header_bytes h ++ drop (length (header_bytes h)) dest)

-- The bound of a loop, for which a negative number counts as 0.
abbrev pub loop_bound : ℤ → ℕ
loop_bound (pos n) = n
loop_bound (negsuc n) = 0

-- The loops of `deserialize`: the integers that are read, and the bytes behind them.
unfoldable pub read_ints : ℕ → List ℕ → List ℤ × List ℕ
read_ints zero src = ([], src)
read_ints (suc n) src = let rest = read_ints n (drop 4 src) in (read_int src ∷ rest.0, rest.1)

-- The columns are pushed behind those that the header has.
unfoldable pub read_header : IxFileHdr → List ℕ → IxFileHdr
unfolding read_ints
read_header h src =
    let col_num = loop_bound (read_int (drop 16 src)) in
    let types = read_ints col_num (drop 20 src) in
    let lens = read_ints col_num types.1 in
    record {
      tot_len = read_int src;
      first_free_page_no = read_int (drop 4 src);
      num_pages = read_int (drop 8 src);
      root_page = read_int (drop 12 src);
      col_num = col_num;
      col_types = h.col_types ++ map (λ z. number_type (loop_bound z)) types.0;
      col_lens = h.col_lens ++ lens.0;
      col_tot_len = read_int lens.1;
      btree_order = read_int (drop 4 lens.1);
      keys_size = read_int (drop 8 lens.1);
      first_leaf = read_int (drop 12 lens.1);
      last_leaf = read_int (drop 16 lens.1);
    }

-- The five integers before the columns and the five behind them take 40 bytes.
unfoldable pub deserialize : IxFileHdr → List ℕ → Result IxFileHdr
unfolding read_header
deserialize h src =
    let read = read_header h src in
    unless_short (20 + (4 * read.col_num + 4 * read.col_num) + 20) read read
