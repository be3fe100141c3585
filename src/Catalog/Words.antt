-- ===== src/Catalog/Words.antt =====
-- system/sm_meta.h: the operators `<<` and `>>` of the catalog, with the blanks and newlines between the
-- values. A write takes what is written after it, and puts its text in front.
use db2024_main.Common.{
  text_eq, ℕ, Bool, List, [], Option, Text, false, if◌then◌else◌, insert, length, none, not, some,
  suc, true, zero, ◌++◌, ◌==◌, ◌∷◌,
}
use db2024_main.Catalog.{
  ColMeta, ColType, DbMeta, IndexMeta, TabMeta, type_float, type_int, type_string,
}
use db2024_main.Catalog.Stream.{Stream, read_number, read_text, write_number}

-- A read gives the value and what is left of the stream, or fails.
abbrev pub Reader : Type 0 → Type 0
Reader A = Stream → Option (A × Stream)

abbrev pub bind_read : {A B : Type 0} → Option (A × Stream) → (A → Reader B) → Option (B × Stream)
bind_read none f = none
bind_read (some (a, rest)) f = f a rest

infixl 5 ◌>>=◌
abbrev pub ◌>>=◌ : {A B : Type 0} → Reader A → (A → Reader B) → Reader B
◌>>=◌ m f s = bind_read (m s) f

abbrev pub returned : {A : Type 0} → A → Reader A
returned a s = some (a, s)

-- The limits of `int`, `size_t` and `bool`.
abbrev pub int_limit : ℕ
int_limit = 2147483648

abbrev pub size_limit : ℕ
size_limit = 18446744073709551616

abbrev pub bool_limit : ℕ
bool_limit = 2

-- An enumeration and a `bool` as numbers.
unfoldable pub type_number : ColType → ℕ
type_number type_int = 0
type_number type_float = 1
type_number type_string = 2

unfoldable pub number_type : ℕ → ColType
number_type n = if n == 0 then type_int else if n == 1 then type_float else type_string

unfoldable pub bool_number : Bool → ℕ
bool_number true = 1
bool_number false = 0

unfoldable pub write_col : ColMeta → Stream → Stream
unfolding type_number bool_number write_number
write_col c after =
    c.tab_name
    ++ b' '
      ∷ (c.name
          ++ b' '
            ∷ write_number (type_number c.type) (
                b' '
                ∷ write_number c.len (
                    b' '
                    ∷ write_number c.offset (b' ' ∷ write_number (bool_number c.index) after))))

unfoldable pub read_col : Reader ColMeta
unfolding read_text read_number number_type
read_col = do
  tab_name ← read_text
  name ← read_text
  type ← read_number int_limit
  len ← read_number int_limit
  offset ← read_number int_limit
  index ← read_number bool_limit
  returned (record {
    tab_name = tab_name;
    name = name;
    type = number_type type;
    len = len;
    offset = offset;
    index = not (index == 0);
  })

-- A loop that writes or reads one value after the other: each value before a newline, or behind one.
module _ {A : Type 0} where
  unfoldable pub write_lines : (A → Stream → Stream) → List A → Stream → Stream
  write_lines write [] after = after
  write_lines write (a ∷ l) after = write a (b'\n' ∷ write_lines write l after)

  unfoldable pub write_behind : (A → Stream → Stream) → List A → Stream → Stream
  write_behind write [] after = after
  write_behind write (a ∷ l) after = b'\n' ∷ write a (write_behind write l after)

  unfoldable pub read_all : Reader A → ℕ → Reader (List A)
  read_all read zero = returned []
  read_all read (suc n) = do a ← read; l ← read_all read n; returned (a ∷ l)

unfoldable pub write_index : IndexMeta → Stream → Stream
unfolding write_behind write_col write_number
write_index i after =
    i.tab_name
    ++ b' '
      ∷ write_number i.col_tot_len
          (b' ' ∷ write_number i.col_num (write_behind write_col i.cols after))

unfoldable pub read_index : Reader IndexMeta
unfolding read_text read_number read_all read_col
read_index = do
  tab_name ← read_text
  col_tot_len ← read_number int_limit
  col_num ← read_number int_limit
  cols ← read_all read_col col_num
  returned
      (record { tab_name = tab_name; col_tot_len = col_tot_len; col_num = col_num; cols = cols })

unfoldable pub write_table : TabMeta → Stream → Stream
unfolding write_lines write_col write_index write_number
write_table t after =
    t.name
    ++ b'\n'
      ∷ write_number (length t.cols) (
          b'\n'
          ∷ write_lines write_col t.cols
              (write_number (length t.indexes) (b'\n' ∷ write_lines write_index t.indexes after)))

unfoldable pub read_table : Reader TabMeta
unfolding read_text read_number read_all read_col read_index
read_table = do
  name ← read_text
  n ← read_number size_limit
  cols ← read_all read_col n
  m ← read_number size_limit
  indexes ← read_all read_index m
  returned (record { name = name; cols = cols; indexes = indexes })

unfoldable pub write_tables : List (Text × TabMeta) → Stream → Stream
unfolding write_table
write_tables [] after = after
write_tables ((key, t) ∷ tabs) after = write_table t (b'\n' ∷ write_tables tabs after)

unfoldable pub write_db : DbMeta → Stream → Stream
unfolding write_tables write_number
write_db db after =
    db.name ++ b'\n' ∷ write_number (length db.tabs) (b'\n' ∷ write_tables db.tabs after)

-- `db_meta.tabs_[tab.name] = tab`
unfoldable pub read_tables : ℕ → List (Text × TabMeta) → Reader (List (Text × TabMeta))
unfolding read_table
read_tables zero tabs = returned tabs
read_tables (suc n) tabs = do t ← read_table; read_tables n (insert t.name t tabs)

unfoldable pub read_db : DbMeta → Reader DbMeta
unfolding read_text read_number read_tables
read_db db = do
  name ← read_text
  n ← read_number size_limit
  tabs ← read_tables n db.tabs
  returned (record { name = name; tabs = tabs })
