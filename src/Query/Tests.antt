-- ===== src/Query/Tests.antt =====
-- Conditions on a record of two numbers.
use db2024_main.Common.{ℕ, List, [], ok, refl, true, ◌∷◌, ◌≡◌, int_lt, read_int, str_eq}
use db2024_main.Catalog.{type_eq}
use db2024_main.Query.{op_gt, op_lt, swap_sides}
use db2024_main.Query.Eval.{eval_cond, eval_conds, get_col_at, is_numeric_type, compare_result}
use db2024_main.Query.Eval.Swap.{eval_cond-swap_sides}
use db2024_main.Query.Samples.{
  column, column_name, columns, columns_cond, sample_floats, table_a, value_cond,
}

-- The columns hold 7 and 9.
abbrev seven_nine : List ℕ
seven_nine = 7 ∷ 0 ∷ 0 ∷ 0 ∷ 9 ∷ 0 ∷ 0 ∷ 0 ∷ []

both_hold :
    eval_conds sample_floats (columns table_a) seven_nine (
      value_cond (column_name table_a 1) op_gt 8
      ∷ columns_cond (column_name table_a 0) op_lt (column_name table_a 1)
      ∷ [])
    ≡ ok true
unfolding eval_conds get_col_at str_eq type_eq is_numeric_type compare_result int_lt read_int
both_hold = refl

eval_cond-swap_sides_example :
    eval_cond sample_floats
      (columns table_a)
      seven_nine
      (columns_cond (column_name table_a 1) op_gt (column_name table_a 0))
    ≡ eval_cond sample_floats
        (columns table_a)
        seven_nine
        (columns_cond (column_name table_a 0) op_lt (column_name table_a 1))
unfolding swap_sides get_col_at str_eq
eval_cond-swap_sides_example =
    eval_cond-swap_sides sample_floats (columns table_a) seven_nine
      (columns_cond (column_name table_a 0) op_lt (column_name table_a 1))
      (columns_cond (column_name table_a 1) op_gt (column_name table_a 0)) (column table_a 0)
      (column table_a 1) refl refl refl refl refl refl refl refl
