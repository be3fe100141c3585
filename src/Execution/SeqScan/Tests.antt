-- ===== src/Execution/SeqScan/Tests.antt =====
-- The scan of a table with one record of two numbers, 7 and 9.
use db2024_main.Common.{
  ℕ, Bool, List, [], arith, elem, int_eq, minus_one, negsuc, none, ok, pos, refl, some, true, ◌∷◌,
  ◌≡◌, str_eq,
}
use db2024_main.Catalog.{find_col}
use db2024_main.Query.{Condition, op_gt}
use db2024_main.Query.Eval.{eval_conds}
use db2024_main.Query.Samples.{column, column_name, columns, sample_floats, table_a, value_cond}
use db2024_main.Analyze.Typed.{IsTyped, eval_conds-ok}
use db2024_main.Record.Bitmap
use db2024_main.Record.File.{insert_record, null_page}
use db2024_main.Record.File.Access.{rid_at}
use db2024_main.Record.File.Insert.{insert_record-Stored}
use db2024_main.Record.File.Valid.{IsValid, record_at}
use db2024_main.Execution.SeqScan.{SeqScan, Table, begin_tuple, next_tuple}
use db2024_main.Execution.SeqScan.Run.{begin_tuple-Sought, next_tuple-Sought}
use db2024_main.Execution.SeqScan.Seek.{Sought}

abbrev numbers : List ℕ
numbers = 7 ∷ 0 ∷ 0 ∷ 0 ∷ 9 ∷ 0 ∷ 0 ∷ 0 ∷ []

abbrev empty_table : Table
empty_table = record {
  hdr = record {
    record_size = 8;
    num_pages = 1;
    num_records_per_page = 3;
    first_free_page_no = minus_one;
    bitmap_size = 1;
  };
  pages = λ n. record {
    next_free_page_no = minus_one;
    num_records = 0;
    bitmap = λ b. 0;
    slots = λ i. [];
  };
  pins = λ n. 0;
  grants = λ c. true;
  refusals = λ c. null_page;
  calls = 0;
  next_page = 1;
}

empty_table-IsValid : IsValid empty_table
unfolding elem
empty_table-IsValid = record {
  free = [];
  positive = omega arith;
  has_header = omega arith;
  numbered = refl;
  pages = λ n h. absurd (ground arith);
  chain = refl;
  distinct = tt;
  listed = λ n h. cc (h);
  room = λ n h. absurd (ground arith);
}

abbrev one_row : Table
one_row = (insert_record [] numbers empty_table).0

inserts : insert_record [] numbers empty_table ≡ (one_row, ok (rid_at 1 0))
unfolding insert_record int_eq Bitmap.is_set
inserts = refl

one_row-IsValid : IsValid one_row
one_row-IsValid =
    (insert_record-Stored [] numbers empty_table one_row (rid_at 1 0) empty_table-IsValid
      inserts).valid

granted : (c : ℕ) → one_row.grants c ≡ true
unfolding insert_record int_eq Bitmap.is_set
granted c = refl

abbrev above_five : List (Condition ℕ)
above_five = value_cond (column_name table_a 0) op_gt 5 ∷ []

above_five-IsTyped : IsTyped (columns table_a) (value_cond (column_name table_a 0) op_gt 5)
unfolding find_col str_eq
above_five-IsTyped = record {
  no_value = refl;
  one_side = refl;
  meta = column table_a 0;
  left = refl;
  value = λ v. (5 ∷ 0 ∷ 0 ∷ 0 ∷ [], refl);
  members = λ m. cc;
  column = λ a b. cc (a);
}

evaluates :
    (m i : ℕ) (d : List ℕ)
    → record_at m i one_row ≡ some d
    → (b : Bool) × (eval_conds sample_floats (columns table_a) d above_five ≡ ok b)
evaluates m i d r =
    eval_conds-ok sample_floats (columns table_a) d above_five (above_five-IsTyped, tt)

abbrev closed : SeqScan
closed = record { scan = none; rid = rid_at 0 0 }

abbrev at_row : SeqScan
at_row = record { scan = some (rid_at 1 0); rid = rid_at 1 0 }

begin_tuple-Sought_example :
    (s2 : Table) × (q2 : SeqScan) × (begin_tuple sample_floats
        (columns table_a)
        above_five
        closed
        one_row
      ≡ (s2, ok q2))
    × Sought sample_floats (columns table_a) above_five one_row granted evaluates 1 (negsuc 0) s2 q2
begin_tuple-Sought_example =
    begin_tuple-Sought sample_floats (columns table_a) above_five one_row granted evaluates closed
      one_row-IsValid

next_tuple-Sought_example :
    (s2 : Table) × (q2 : SeqScan) × (next_tuple sample_floats
        (columns table_a)
        above_five
        at_row
        one_row
      ≡ (s2, ok q2))
    × Sought sample_floats (columns table_a) above_five one_row granted evaluates 1 (pos 0) s2 q2
unfolding insert_record int_eq Bitmap.is_set
next_tuple-Sought_example =
    next_tuple-Sought sample_floats (columns table_a) above_five one_row granted evaluates 1 0
      at_row one_row-IsValid (omega arith) (omega arith) refl
