-- ===== src/Query.antt =====
-- common/common.h: column names, values and conditions. A float is a type of its own, with the
-- operations of `Floats` for what the processor does on it.
pub mod Eval
pub mod Samples
mod Tests
use db2024_main.Common.{
  ℕ, ℤ, Bool, List, Option, Text, assertion_failed, if◌then◌else◌, int_bytes, length, ltb, none, ok,
  out_of_range, raise, replicate, Result, some, string_overflow, ◌++◌, ◌-◌, ◌==◌, ◌>>◌,
}
use db2024_main.Common.Results.{◌>>=◌}
use db2024_main.Catalog.{ColType, type_int, type_float, type_string}

pub record TabCol : Type 0 where
  pub tab_name : Text
  pub col_name : Text

-- `float` and `double`, the bytes of a float, and the comparison of each.
pub record Floats (F D : Type 0) : Type 0 where
  pub float_at : List ℕ → F
  pub float_bytes : F → List ℕ
  pub float_of_int : ℤ → F
  pub float_lt : F → F → Bool
  pub double_of_int : ℤ → D
  pub double_of_float : F → D
  pub double_lt : D → D → Bool
  pub float_zero : F
  pub double_zero : D
  pub double_add : D → D → D

-- The members of the union are read by the tag only. `raw` is the buffer's bytes, `none` the null
-- pointer.
pub record Value (F : Type 0) : Type 0 where
  pub type : ColType
  pub int_val : ℤ
  pub float_val : F
  pub str_val : Text
  pub raw : Option (List ℕ)

pub data CompOp : Type 0 where
  op_eq op_ne op_lt op_gt op_le op_ge op_in : CompOp

-- `rhs_query` is left out: it is replaced by its rows before a condition is evaluated.
pub record Condition (F : Type 0) : Type 0 where
  pub lhs_col : TabCol
  pub op : CompOp
  pub is_lhs_val : Bool
  pub lhs_val : Value F
  pub is_rhs_val : Bool
  pub is_rhs_set : Bool
  pub is_rhs_subquery : Bool
  pub is_rhs_null : Bool
  pub rhs_col : TabCol
  pub rhs_val : Value F
  pub rhs_vals : List (Value F)

module _ {F : Type 0} where
  unfoldable pub set_int : ℤ → Value F → Value F
  set_int i v = record v { type = type_int; int_val = i }

  unfoldable pub set_float : F → Value F → Value F
  set_float f v = record v { type = type_float; float_val = f }

  unfoldable pub set_str : Text → Value F → Value F
  set_str s v = record v { type = type_string; str_val = s }

module _ {F D : Type 0} (fl : Floats F D) where
  -- The bytes that `init_raw` writes to its new buffer.
  unfoldable pub raw_bytes : ColType → ℕ → Value F → Result (List ℕ)
  raw_bytes type_int len v = if len == 4 then ok (int_bytes v.int_val) else raise assertion_failed
  raw_bytes type_float len v =
      if len == 4 then ok (fl.float_bytes v.float_val) else raise assertion_failed
  raw_bytes type_string len v =
      if ltb len (length v.str_val)
      then raise string_overflow
      else ok (v.str_val ++ replicate (len - length v.str_val) 0)

  unfoldable pub with_raw : Value F → Result (List ℕ) → Result (Value F)
  with_raw v (ok bytes) = ok (record v { raw = some bytes })
  with_raw v (raise e) = raise e

  -- `assert(raw == nullptr)`
  unfoldable pub if_unset : Option (List ℕ) → Result (Value F) → Result (Value F)
  if_unset none r = r
  if_unset (some b) r = raise assertion_failed

  unfoldable pub init_raw : ℕ → Value F → Result (Value F)
  unfolding raw_bytes with_raw if_unset
  init_raw len v = if_unset v.raw (with_raw v (raw_bytes v.type len v))

-- The map `swap_op` of the planner, whose `at` throws for `op_in`.
unfoldable pub swap_op : CompOp → Result CompOp
swap_op op_eq = ok op_eq
swap_op op_ne = ok op_ne
swap_op op_lt = ok op_gt
swap_op op_gt = ok op_lt
swap_op op_le = ok op_ge
swap_op op_ge = ok op_le
swap_op op_in = raise out_of_range

-- `std::swap(cond->lhs_col, cond->rhs_col); cond->op = swap_op.at(cond->op)`
unfoldable pub swap_sides : {F : Type 0} → Condition F → Result (Condition F)
unfolding swap_op
swap_sides c = do
  op ← swap_op c.op
  ok (record c { lhs_col = c.rhs_col; rhs_col = c.lhs_col; op = op })
