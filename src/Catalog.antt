-- ===== src/Catalog.antt =====
-- system/sm_meta.h: the catalog's columns, indexes, tables and database, with their lookups, and
-- `ColType` of defs.h. Lengths, offsets and counts are `int`s that are never negative.
pub mod Stream
pub mod Words
pub mod RoundTrip
pub mod Database
mod Tests
use db2024_main.Common.{
  text_eq, ℕ, Bool, List, Option, Text, [], column_not_found, false, if◌then◌else◌, index_not_found,
  length, lookup, none, ok, raise, Result, some, str_eq, table_not_found, true, ◌&&◌, ◌==◌, ◌∷◌,
  ◌||◌, Error,
}

pub data ColType : Type 0 where
  type_int type_float type_string : ColType

unfoldable pub type_eq : ColType → ColType → Bool
type_eq type_int type_int = true
type_eq type_float type_float = true
type_eq type_string type_string = true
type_eq _ _ = false

pub record ColMeta : Type 0 where
  pub tab_name : Text
  pub name : Text
  pub type : ColType
  pub len : ℕ
  pub offset : ℕ
  pub index : Bool

pub record IndexMeta : Type 0 where
  pub tab_name : Text
  pub col_tot_len : ℕ
  pub col_num : ℕ
  pub cols : List ColMeta

pub record TabMeta : Type 0 where
  pub name : Text
  pub cols : List ColMeta
  pub indexes : List IndexMeta

-- `std::map<std::string, TabMeta>` as an association list.
pub record DbMeta : Type 0 where
  pub name : Text
  pub tabs : List (Text × TabMeta)

-- `std::find_if` on columns.
unfoldable pub find_col : (ColMeta → Bool) → List ColMeta → Option ColMeta
find_col test [] = none
find_col test (c ∷ cols) = if test c then some c else find_col test cols

abbrev pub found_or {ℓ} : {A : Type ℓ} → Error → Option A → Result A
found_or e none = raise e
found_or e (some a) = ok a

unfoldable pub is_col : Text → List ColMeta → Bool
unfolding find_col
is_col col_name cols = elim (find_col (λ c. str_eq c.name col_name) cols) [
  | none ↦ false
  | some c ↦ true
]

unfoldable pub get_col : Text → List ColMeta → Result ColMeta
unfolding find_col
get_col col_name cols = found_or column_not_found (find_col (λ c. str_eq c.name col_name) cols)

-- The names of the columns are those given, position by position.
unfoldable pub same_names : List ColMeta → List Text → Bool
same_names [] [] = true
same_names [] (n ∷ names) = false
same_names (c ∷ cols) [] = false
same_names (c ∷ cols) (n ∷ names) = str_eq c.name n && same_names cols names

unfoldable pub is_index : List Text → List IndexMeta → Bool
unfolding same_names
is_index col_names [] = false
is_index col_names (i ∷ indexes) =
    ((i.col_num == length col_names) && same_names i.cols col_names) || is_index col_names indexes

unfoldable pub get_index_meta : List Text → List IndexMeta → Result IndexMeta
unfolding same_names
get_index_meta col_names [] = raise index_not_found
get_index_meta col_names (i ∷ indexes) =
    if (i.col_num == length col_names) && same_names i.cols col_names
    then ok i
    else get_index_meta col_names indexes

unfoldable pub is_table : Text → DbMeta → Bool
is_table tab_name db = elim (lookup tab_name db.tabs) [ none ↦ false | some t ↦ true ]

unfoldable pub get_table : Text → DbMeta → Result TabMeta
get_table tab_name db = found_or table_not_found (lookup tab_name db.tabs)
