-- ===== src/Planner/Choice.antt =====
-- optimizer/planner.cpp: the choice of an index for the conditions on a table.
use db2024_main.Common.{
  ℕ, Bool, List, Text, [], false, if◌then◌else◌, ltb, map, ok, Result, str_eq, suc, true, ◌&&◌, ◌∷◌,
  ◌||◌,
}
use db2024_main.Common.Results.{◌>>=◌}
use db2024_main.Catalog.{ColMeta, DbMeta, IndexMeta, get_table}
use db2024_main.Query.{CompOp, Condition, op_eq, op_ge, op_gt, op_le, op_lt}

unfoldable pub is_eq_op : CompOp → Bool
is_eq_op op_eq = true
is_eq_op _ = false

unfoldable pub is_range_op : CompOp → Bool
is_range_op op_lt = true
is_range_op op_le = true
is_range_op op_gt = true
is_range_op op_ge = true
is_range_op _ = false

module _ {F : Type 0} where
  -- `has_eq` and `has_range` of the column `name`.
  unfoldable pub on_column : Text → Text → Condition F → Bool
  on_column tab_name name c =
      c.is_rhs_val && str_eq c.lhs_col.tab_name tab_name && str_eq c.lhs_col.col_name name

  unfoldable pub has_op : (CompOp → Bool) → Text → Text → List (Condition F) → Bool
  unfolding on_column
  has_op test tab_name name [] = false
  has_op test tab_name name (c ∷ conds) =
      (on_column tab_name name c && test c.op) || has_op test tab_name name conds

  -- The columns of an index, from its first on, that conditions fix or, as the last, bound.
  unfoldable pub matched : Text → List (Condition F) → List ColMeta → ℕ
  unfolding has_op is_eq_op is_range_op
  matched tab_name conds [] = 0
  matched tab_name conds (col ∷ cols) =
      let rest = matched tab_name conds cols in
      if has_op is_eq_op tab_name col.name conds
      then suc rest
      else if has_op is_range_op tab_name col.name conds
      then 1
      else 0

  -- The loop over the indexes with `best_len` and `best_index`.
  unfoldable pub best_from :
      Text → List (Condition F) → ℕ → List Text → List IndexMeta → ℕ × List Text
  unfolding matched
  best_from tab_name conds best_len best_index [] = (best_len, best_index)
  best_from tab_name conds best_len best_index (i ∷ indexes) =
      let better =
        best_from tab_name conds (matched tab_name conds i.cols) (map (λ c. c.name) i.cols)
          indexes in
      let same = best_from tab_name conds best_len best_index indexes in
      if ltb best_len (matched tab_name conds i.cols) then better else same

  -- `some` is the result true, with the names of the index's columns.
  unfoldable pub get_index_cols : DbMeta → Text → List (Condition F) → Result (Bool × List Text)
  unfolding best_from
  get_index_cols db tab_name conds = do
    tab ← get_table tab_name db
    let best = best_from tab_name conds 0 [] tab.indexes
    ok (if ltb 0 best.0 then (true, best.1) else (false, []))
