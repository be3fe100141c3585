-- ===== src/Query/Samples.antt =====
-- Two tables with two columns each, an index, and conditions on them. Floats stand in as numbers.
use db2024_main.Common.{ℕ, ℤ, List, Text, [], false, ltb, pos, some, true, ◌∷◌, negsuc, ◌*◌, ◌+◌}
use db2024_main.Catalog.{ColMeta, DbMeta, IndexMeta, TabMeta, type_int}
use db2024_main.Query.{CompOp, Condition, Floats, TabCol, Value}

abbrev magnitude : ℤ → ℕ
magnitude (pos n) = n
magnitude (negsuc n) = 0

abbrev pub sample_floats : Floats ℕ ℕ
sample_floats = record {
  float_at = λ b. 0;
  float_bytes = λ f. f ∷ 0 ∷ 0 ∷ 0 ∷ [];
  float_of_int = magnitude;
  float_lt = ltb;
  double_of_int = magnitude;
  double_of_float = λ f. f;
  double_lt = ltb;
  float_zero = 0;
  double_zero = 0;
  double_add = λ a b. a + b;
}

abbrev pub table_a : Text
table_a = b'a' ∷ []

abbrev pub table_b : Text
table_b = b'b' ∷ []

abbrev pub column : Text → ℕ → ColMeta
column t n = record {
  tab_name = t;
  name = (b'p' + n) ∷ [];
  type = type_int;
  len = 4;
  offset = 4 * n;
  index = false;
}

abbrev pub column_name : Text → ℕ → TabCol
column_name t n = record { tab_name = t; col_name = (b'p' + n) ∷ [] }

abbrev pub columns : Text → List ColMeta
columns t = column t 0 ∷ column t 1 ∷ []

abbrev pub index_on : Text → IndexMeta
index_on t = record { tab_name = t; col_tot_len = 4; col_num = 1; cols = column t 0 ∷ [] }

abbrev pub table : Text → TabMeta
table t = record { name = t; cols = columns t; indexes = index_on t ∷ [] }

abbrev pub sample_db : DbMeta
sample_db = record { name = []; tabs = (table_a, table table_a) ∷ (table_b, table table_b) ∷ [] }

abbrev pub int_value : ℕ → Value ℕ
int_value n = record {
  type = type_int;
  int_val = pos n;
  float_val = 0;
  str_val = [];
  raw = some (n ∷ 0 ∷ 0 ∷ 0 ∷ []);
}

-- A column against another, and against a number.
abbrev pub columns_cond : TabCol → CompOp → TabCol → Condition ℕ
columns_cond l op r = record {
  lhs_col = l;
  op = op;
  is_lhs_val = false;
  lhs_val = int_value 0;
  is_rhs_val = false;
  is_rhs_set = false;
  is_rhs_subquery = false;
  is_rhs_null = false;
  rhs_col = r;
  rhs_val = int_value 0;
  rhs_vals = [];
}

abbrev pub value_cond : TabCol → CompOp → ℕ → Condition ℕ
value_cond l op n = record (columns_cond l op l) { is_rhs_val = true; rhs_val = int_value n }
