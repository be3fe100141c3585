-- ===== src/Analyze.antt =====
-- analyze/analyze.cpp: the columns that a query names, and the types of its conditions.
pub mod Columns
pub mod Found
pub mod Typed
pub mod Stages
pub mod Rights
pub mod Sound
mod Tests
use db2024_main.Common.{
  ℕ, Bool, List, Result, Text, [], ambiguous_column, column_not_found, false, if◌then◌else◌,
  incompatible_type, is_some, not, ok, raise, rmdb_error, str_eq, true, ◌&&◌, ◌++◌, ◌∷◌, ◌||◌,
}
use db2024_main.Common.Results.{guard, map_result, ◌>>=◌, ◌>>◌}
use db2024_main.Catalog.{
  ColMeta, ColType, DbMeta, find_col, get_col, get_table, type_eq, type_float, type_int,
  type_string,
}
use db2024_main.Query.{Condition, Floats, TabCol, Value, init_raw, set_float}

-- `empty()` of a name.
unfoldable pub is_empty : Text → Bool
is_empty [] = true
is_empty (x ∷ xs) = false

-- The loop over all columns for a name without a table, with the local `tab_name`.
unfoldable pub find_table : Text → Text → List ColMeta → Result Text
unfolding is_empty
find_table col_name tab_name [] = ok tab_name
find_table col_name tab_name (c ∷ cols) =
    let first = find_table col_name c.tab_name cols in
    let other = find_table col_name tab_name cols in
    if str_eq c.name col_name
    then (if not (is_empty tab_name) then raise ambiguous_column else first)
    else other

-- The test for a column with its table's name.
abbrev pub is_target : TabCol → ColMeta → Bool
is_target target c = str_eq c.tab_name target.tab_name && str_eq c.name target.col_name

-- The name of the table that was found.
unfoldable pub with_table : TabCol → Text → Result TabCol
unfolding is_empty
with_table target tab_name =
    if is_empty tab_name then raise column_not_found else ok (record target { tab_name = tab_name })

unfoldable pub check_column : List ColMeta → TabCol → Result TabCol
unfolding find_table with_table is_empty find_col
check_column all_cols target =
    if is_empty target.tab_name
    then find_table target.col_name [] all_cols >>= with_table target
    else if is_some (find_col (is_target target) all_cols)
    then ok target
    else raise column_not_found

unfoldable pub get_all_cols : DbMeta → List Text → Result (List ColMeta)
unfolding get_table
get_all_cols db [] = ok []
get_all_cols db (t ∷ tab_names) = do
  tab ← get_table t db
  rest ← get_all_cols db tab_names
  ok (tab.cols ++ rest)

unfoldable pub is_comparable_type : ColType → ColType → Bool
is_comparable_type lhs_type rhs_type =
    if type_eq lhs_type rhs_type
    then true
    else (type_eq lhs_type type_int && type_eq rhs_type type_float)
      || (type_eq lhs_type type_float && type_eq rhs_type type_int)

-- `lhs_type` and `lhs_len`
pub record Side : Type 0 where
  pub type : ColType
  pub len : ℕ

module _ {F D : Type 0} (fl : Floats F D) where
  -- The left column of a condition, and a right column, get their tables' names.
  unfoldable pub resolve_left : List ColMeta → Condition F → Result (Condition F)
  resolve_left all_cols c =
      if c.is_lhs_val
      then ok c
      else (check_column all_cols c.lhs_col >>= λ col. ok (record c { lhs_col = col }))

  unfoldable pub resolve_right : List ColMeta → Condition F → Result (Condition F)
  resolve_right all_cols c =
      if not c.is_rhs_val && not c.is_rhs_set && not c.is_rhs_subquery
      then (check_column all_cols c.rhs_col >>= λ col. ok (record c { rhs_col = col }))
      else ok c

  unfoldable pub column_side : DbMeta → TabCol → Result Side
  column_side db col = do
    tab ← get_table col.tab_name db
    meta ← get_col col.col_name tab.cols
    ok (record { type = meta.type; len = meta.len })

  unfoldable pub left_side : DbMeta → Condition F → Result Side
  unfolding column_side
  left_side db c =
      if c.is_lhs_val
      then ok (record { type = c.lhs_val.type; len = 0 })
      else column_side db c.lhs_col

  -- An integer literal beside a float.
  unfoldable pub widen : ColType → Value F → Value F
  unfolding set_float
  widen lhs_type v =
      if type_eq lhs_type type_float && type_eq v.type type_int
      then set_float (fl.float_of_int v.int_val) v
      else v

  unfoldable pub check_value : Bool → Side → Value F → Result (Value F)
  unfolding widen init_raw
  check_value is_lhs_val lhs v = do
    guard (type_eq (widen lhs.type v).type lhs.type) incompatible_type
    if is_lhs_val then ok (widen lhs.type v) else init_raw fl lhs.len (widen lhs.type v)

  unfoldable pub check_member : Bool → Side → Value F → Result (Value F)
  unfolding widen init_raw is_comparable_type
  check_member is_lhs_val lhs v = do
    guard (is_comparable_type lhs.type v.type) incompatible_type
    if not is_lhs_val
          && type_eq (widen lhs.type v).type lhs.type
          && not (type_eq (widen lhs.type v).type type_string)
        then init_raw fl lhs.len (widen lhs.type v)
        else ok (widen lhs.type v)

  -- The right side, with `rhs_type`. A subquery leaves it unset and unread.
  unfoldable pub check_right : DbMeta → Side → Condition F → Result (Condition F × ColType)
  unfolding check_value check_member column_side
  check_right db lhs c =
      if c.is_rhs_val
      then (check_value c.is_lhs_val lhs c.rhs_val >>= λ v. ok (record c { rhs_val = v }, v.type))
      else if c.is_rhs_set
      then (map_result (check_member c.is_lhs_val lhs) c.rhs_vals >>= λ vals.
          ok (record c { rhs_vals = vals }, lhs.type))
      else if not c.is_rhs_subquery
      then (column_side db c.rhs_col >>= λ side. ok (c, side.type))
      else ok (c, lhs.type)

  -- The two checks at the end of a round.
  unfoldable pub check_end : Side → Condition F × ColType → Result (Condition F)
  check_end lhs (c, rhs_type) = do
    guard (c.is_rhs_subquery || type_eq lhs.type rhs_type) incompatible_type
    guard (not c.is_lhs_val || c.is_rhs_subquery) rmdb_error
    ok c

  -- One round of the loop of `check_clause`.
  unfoldable pub check_cond : DbMeta → List ColMeta → Condition F → Result (Condition F)
  unfolding resolve_left resolve_right left_side check_right check_end
  check_cond db all_cols cond = do
    c1 ← resolve_left all_cols cond
    c2 ← resolve_right all_cols c1
    lhs ← left_side db c2
    checked ← check_right db lhs c2
    check_end lhs checked

  unfoldable pub check_clause :
      DbMeta → List Text → List (Condition F) → Result (List (Condition F))
  unfolding get_all_cols check_cond
  check_clause db tab_names conds = do
    all_cols ← get_all_cols db tab_names
    map_result (check_cond db all_cols) conds
