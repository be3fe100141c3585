-- ===== src/Query/Eval.antt =====
-- execution/executor_abstract.h: the evaluation of conditions on a record.
pub mod Swap
use db2024_main.Common.{
  ℕ, ℤ, Bool, List, Text, [], column_not_found, drop, false, if◌then◌else◌, int_eq, int_lt, length,
  none, not, ok, pos, read_int, Result, sign, some, str_compare, str_eq, strncmp, take, true,
  until_nul, ◌&&◌, ◌∷◌, ◌||◌, Option, ◌>>◌,
}
use db2024_main.Common.Results.{◌>>=◌, deref}
use db2024_main.Catalog.{
  ColMeta, ColType, find_col, found_or, type_eq, type_float, type_int, type_string,
}
use db2024_main.Query.{
  CompOp, Condition, Floats, TabCol, Value, op_eq, op_ge, op_gt, op_in, op_le, op_lt, op_ne,
}

unfoldable pub compare_result : ℤ → CompOp → Bool
compare_result cmp op_eq = int_eq cmp (pos 0)
compare_result cmp op_ne = not (int_eq cmp (pos 0))
compare_result cmp op_lt = int_lt cmp (pos 0)
compare_result cmp op_gt = int_lt (pos 0) cmp
compare_result cmp op_le = not (int_lt (pos 0) cmp)
compare_result cmp op_ge = not (int_lt cmp (pos 0))
compare_result cmp op_in = int_eq cmp (pos 0)

unfoldable pub is_numeric_type : ColType → Bool
is_numeric_type type_int = true
is_numeric_type type_float = true
is_numeric_type type_string = false

-- `AbstractExecutor::get_col`
unfoldable pub get_col_at : List ColMeta → TabCol → Result ColMeta
unfolding find_col
get_col_at rec_cols target =
    found_or column_not_found
      (find_col (λ c. str_eq c.tab_name target.tab_name && str_eq c.name target.col_name) rec_cols)

-- The left side of a condition: its bytes, of which a string literal has none (`lhs` is null and
-- `lhs_len` is 0), its type and its length.
pub record Operand : Type 0 where
  pub bytes : List ℕ
  pub type : ColType
  pub len : ℕ

module _ {F D : Type 0} (fl : Floats F D) where
  unfoldable pub compare_raw : List ℕ → List ℕ → ColType → ℕ → ℤ
  compare_raw lhs rhs type_int len =
      sign (int_lt (read_int rhs) (read_int lhs)) (int_lt (read_int lhs) (read_int rhs))
  compare_raw lhs rhs type_float len =
      sign (fl.float_lt (fl.float_at rhs) (fl.float_at lhs))
        (fl.float_lt (fl.float_at lhs) (fl.float_at rhs))
  compare_raw lhs rhs type_string len = strncmp lhs rhs len

  unfoldable pub compare_numeric_values : ColType → List ℕ → Value F → ℤ
  compare_numeric_values lhs_type lhs rhs_val =
      let lhs_num =
        if type_eq lhs_type type_int
        then fl.double_of_int (read_int lhs)
        else fl.double_of_float (fl.float_at lhs) in
      let rhs_num =
        if type_eq rhs_val.type type_int
        then fl.double_of_int rhs_val.int_val
        else fl.double_of_float rhs_val.float_val in
      sign (fl.double_lt rhs_num lhs_num) (fl.double_lt lhs_num rhs_num)

  unfoldable pub lhs_value : Value F → Result Operand
  lhs_value v =
      if type_eq v.type type_string
      then ok (record { bytes = []; type = v.type; len = 0 })
      else do raw ← deref v.raw; ok (record { bytes = raw; type = v.type; len = length raw })

  unfoldable pub lhs_operand : List ColMeta → List ℕ → Condition F → Result Operand
  unfolding lhs_value
  lhs_operand rec_cols rec cond = if cond.is_lhs_val then lhs_value cond.lhs_val else do
    c ← get_col_at rec_cols cond.lhs_col
    ok (record { bytes = drop c.offset rec; type = c.type; len = c.len })

  -- `lhs_str`
  unfoldable pub lhs_string : Condition F → Operand → Text
  lhs_string cond lhs =
      if cond.is_lhs_val then cond.lhs_val.str_val else until_nul (take lhs.len lhs.bytes)

  unfoldable pub any_string : Text → List (Value F) → Bool
  any_string s [] = false
  any_string s (v ∷ vals) = str_eq s v.str_val || any_string s vals

  unfoldable pub equals_value : Operand → Value F → Result Bool
  unfolding compare_numeric_values compare_raw
  equals_value lhs v =
      if is_numeric_type lhs.type && is_numeric_type v.type
      then ok (int_eq (compare_numeric_values lhs.type lhs.bytes v) (pos 0))
      else do raw ← deref v.raw; ok (int_eq (compare_raw lhs.bytes raw lhs.type lhs.len) (pos 0))

  unfoldable pub any_value : Operand → List (Value F) → Result Bool
  unfolding equals_value
  any_value lhs [] = ok false
  any_value lhs (v ∷ vals) = do
    here ← equals_value lhs v
    let rest = any_value lhs vals
    if here then ok true else rest

  unfoldable pub in_set : Condition F → Operand → Result Bool
  unfolding any_string any_value lhs_string
  in_set cond lhs =
      if type_eq lhs.type type_string
      then ok (any_string (lhs_string cond lhs) cond.rhs_vals)
      else any_value lhs cond.rhs_vals

  unfoldable pub against : Condition F → Operand → List ℕ → Result Bool
  unfolding compare_raw
  against cond lhs rhs = ok (compare_result (compare_raw lhs.bytes rhs lhs.type lhs.len) cond.op)

  unfoldable pub is_null : Option (List ℕ) → Bool
  is_null none = true
  is_null (some b) = false

  unfoldable pub against_value : Condition F → Operand → Result Bool
  unfolding against compare_numeric_values lhs_string is_null
  against_value cond lhs =
      if type_eq lhs.type type_string && is_null cond.rhs_val.raw
      then ok (compare_result (str_compare (lhs_string cond lhs) cond.rhs_val.str_val) cond.op)
      else if is_numeric_type lhs.type
          && is_numeric_type cond.rhs_val.type
          && not (type_eq lhs.type cond.rhs_val.type)
      then ok (compare_result (compare_numeric_values lhs.type lhs.bytes cond.rhs_val) cond.op)
      else do rhs ← deref cond.rhs_val.raw; against cond lhs rhs

  unfoldable pub eval_rhs : List ColMeta → List ℕ → Condition F → Operand → Result Bool
  unfolding in_set against_value against
  eval_rhs rec_cols rec cond lhs =
      if cond.is_rhs_set
      then in_set cond lhs
      else if cond.is_rhs_val
      then against_value cond lhs
      else do c ← get_col_at rec_cols cond.rhs_col; against cond lhs (drop c.offset rec)

  unfoldable pub eval_cond : List ColMeta → List ℕ → Condition F → Result Bool
  unfolding lhs_operand eval_rhs
  eval_cond rec_cols rec cond =
      if cond.is_rhs_null
      then ok false
      else do lhs ← lhs_operand rec_cols rec cond; eval_rhs rec_cols rec cond lhs

  unfoldable pub eval_conds : List ColMeta → List ℕ → List (Condition F) → Result Bool
  unfolding eval_cond
  eval_conds rec_cols rec [] = ok true
  eval_conds rec_cols rec (cond ∷ conds) = do
    holds ← eval_cond rec_cols rec cond
    let rest = eval_conds rec_cols rec conds
    if holds then rest else ok false
