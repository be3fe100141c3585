-- ===== src/Catalog/Tests.antt =====
-- A catalog with one table, written and read.
use db2024_main.Common.{[], false, refl, some, true, ◌∷◌, ◌≡◌, lookup, arith}
use db2024_main.Catalog.{ColMeta, DbMeta, IndexMeta, type_int, type_string}
use db2024_main.Catalog.Stream.{Stream, skip_blanks}
use db2024_main.Catalog.Words.{read_db, write_db}
use db2024_main.Catalog.RoundTrip.{IsCol}
use db2024_main.Catalog.Database.{read_db-write_db}

abbrev id_column : ColMeta
id_column = record {
  tab_name = b't' ∷ [];
  name = b'i' ∷ [];
  type = type_int;
  len = 4;
  offset = 0;
  index = false;
}

abbrev name_column : ColMeta
name_column = record id_column {
  name = b'n' ∷ [];
  type = type_string;
  len = 8;
  offset = 4;
  index = true;
}

id_column-IsCol : IsCol id_column
id_column-IsCol = record {
  tab_name = (refl, tt);
  name = (refl, tt);
  len = omega arith;
  offset = omega arith;
}

name_column-IsCol : IsCol name_column
name_column-IsCol = record {
  tab_name = (refl, tt);
  name = (refl, tt);
  len = omega arith;
  offset = omega arith;
}

abbrev id_index : IndexMeta
id_index = record { tab_name = b't' ∷ []; col_tot_len = 4; col_num = 1; cols = id_column ∷ [] }

abbrev one_table : DbMeta
one_table = record {
  name = b'd' ∷ [];
  tabs =
      (
        b't' ∷ [],
        record { name = b't' ∷ []; cols = id_column ∷ name_column ∷ []; indexes = id_index ∷ [] },
      )
      ∷ [];
}

abbrev no_tables : DbMeta
no_tables = record { name = []; tabs = [] }

read_db-write_db_example :
    (r : Stream) × (read_db no_tables (write_db one_table (b' ' ∷ b'x' ∷ [])) ≡ some (one_table, r))
    × (skip_blanks r ≡ b'x' ∷ [])
unfolding skip_blanks lookup
read_db-write_db_example =
    read_db-write_db one_table no_tables (b' ' ∷ b'x' ∷ []) (refl, tt) (omega arith)
      (
        (
          refl,
          record {
            name = (refl, tt);
            col_count = omega arith;
            cols = (id_column-IsCol, (name_column-IsCol, tt));
            index_count = omega arith;
            indexes = (
              record {
                tab_name = (refl, tt);
                col_tot_len = omega arith;
                col_num = omega arith;
                counted = refl;
                cols = (id_column-IsCol, tt);
              },
              tt,
            );
          },
        ),
        tt,
      )
      (refl, tt) refl
