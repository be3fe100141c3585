-- ===== src/Execution/Join/Tests.antt =====
-- The join of two table scans: a table with the number 7 and one with the number 8, on the condition
-- that the first number is the smaller one.
use db2024_main.Common.{
  ℕ, Bool, List, [], Result, minus_one, none, ok, raise, refl, true, ◌∷◌, int_eq, ◌≡◌, ap, arith,
  false, int_lt, pos, read_int, some, str_eq, sym, ◌++◌, ◌∙◌, inr,
}
use db2024_main.Catalog.{ColMeta, find_col, type_eq}
use db2024_main.Query.{Condition, op_lt}
use db2024_main.Query.Eval.{eval_conds, get_col_at, compare_result, is_numeric_type}
use db2024_main.Query.Samples.{column, column_name, columns_cond, sample_floats, table_a, table_b}
use db2024_main.Analyze.Typed.{IsTyped, eval_conds-ok}
use db2024_main.Record.File.{get_record, null_page}
use db2024_main.Record.File.Access.{rid_at}
use db2024_main.Execution.Executor.{Executor, YieldsAll}
use db2024_main.Record.Scan
use db2024_main.Record.Bitmap
use db2024_main.Execution.SeqScan.{
  SeqScan, Table, begin_tuple, is_end, next, next_tuple, seek, next_at,
}
use db2024_main.Execution.SeqScan.AsExecutor.{scan_executor}
use db2024_main.Execution.Join.{Join, join_executor}
use db2024_main.Execution.Join.Tuples.{joined}
use db2024_main.Execution.Join.Advance.{Ready}
use db2024_main.Execution.Join.Run.{join_executor-Yields, next_tuple-Ready}

abbrev row : ℕ → List ℕ
row n = n ∷ 0 ∷ 0 ∷ 0 ∷ []

-- One page whose first slots the bitmap marks.
abbrev table_of : ℕ → (ℕ → List ℕ) → Table
table_of bits rows = record {
  hdr = record {
    record_size = 4;
    num_pages = 2;
    num_records_per_page = 2;
    first_free_page_no = minus_one;
    bitmap_size = 1;
  };
  pages = λ n. record {
    next_free_page_no = minus_one;
    num_records = 1;
    bitmap = λ b. bits;
    slots = rows;
  };
  pins = λ n. 0;
  grants = λ c. true;
  refusals = λ c. null_page;
  calls = 0;
  next_page = 2;
}

abbrev seven_table : Table
seven_table = table_of 0x80 (λ i. row 7)

abbrev eight_table : Table
eight_table = table_of 0x80 (λ i. row 8)

abbrev closed : SeqScan
closed = record { scan = none; rid = rid_at 0 0 }

abbrev left_scan : Executor (List ℕ)
left_scan = scan_executor sample_floats (column table_a 0 ∷ []) []

abbrev right_scan : Executor (List ℕ)
right_scan = scan_executor sample_floats (column table_b 0 ∷ []) []

abbrev got : {A : Type 0} → A → Result A → A
got a (ok b) = b
got a (raise e) = a

-- The states of the left scan: at its tuples, before and after they are read, and at its end.
abbrev at_seven : SeqScan × Table
at_seven = got (closed, seven_table) (left_scan.begin_tuple (closed, seven_table))

abbrev read_seven : SeqScan × Table
read_seven = (got (none, at_seven) (left_scan.next at_seven)).1

abbrev left_end : SeqScan × Table
left_end = got read_seven (left_scan.next_tuple read_seven)

abbrev at_eight : SeqScan × Table
at_eight = got (closed, eight_table) (right_scan.begin_tuple (closed, eight_table))

abbrev read_eight : SeqScan × Table
read_eight = (got (none, at_eight) (right_scan.next at_eight)).1

abbrev right_end : SeqScan × Table
right_end = got read_eight (right_scan.next_tuple read_eight)

begins_left : left_scan.begin_tuple (closed, seven_table) ≡ ok at_seven
unfolding begin_tuple Scan.open_scan int_eq Bitmap.is_set seek Scan.is_end get_record is_end next
    next_tuple next_at Scan.next Scan.next_loop
begins_left = refl

reads_seven :
    (left_scan.is_end at_seven ≡ false) × (left_scan.next at_seven ≡ ok (some (row 7), read_seven))
unfolding begin_tuple Scan.open_scan int_eq Bitmap.is_set seek Scan.is_end get_record is_end next
    next_tuple next_at Scan.next Scan.next_loop
reads_seven = (refl, refl)

leaves_seven : (left_scan.next_tuple read_seven ≡ ok left_end) × (left_scan.is_end left_end ≡ true)
unfolding begin_tuple Scan.open_scan int_eq Bitmap.is_set seek Scan.is_end get_record is_end next
    next_tuple next_at Scan.next Scan.next_loop
leaves_seven = (refl, refl)

begins_right : right_scan.begin_tuple (closed, eight_table) ≡ ok at_eight
unfolding begin_tuple Scan.open_scan int_eq Bitmap.is_set seek Scan.is_end get_record is_end next
    next_tuple next_at Scan.next Scan.next_loop
begins_right = refl

reads_eight :
    (right_scan.is_end at_eight ≡ false)
    × (right_scan.next at_eight ≡ ok (some (row 8), read_eight))
unfolding begin_tuple Scan.open_scan int_eq Bitmap.is_set seek Scan.is_end get_record is_end next
    next_tuple next_at Scan.next Scan.next_loop
reads_eight = (refl, refl)

leaves_eight :
    (right_scan.next_tuple read_eight ≡ ok right_end) × (right_scan.is_end right_end ≡ true)
unfolding begin_tuple Scan.open_scan int_eq Bitmap.is_set seek Scan.is_end get_record is_end next
    next_tuple next_at Scan.next Scan.next_loop
leaves_eight = (refl, refl)

left_Yields : YieldsAll left_scan (closed, seven_table) (row 7 ∷ [])
left_Yields = (
  at_seven,
  begins_left,
  (reads_seven.0, (read_seven, reads_seven.1, (left_end, leaves_seven.0, leaves_seven.1))),
)

right_Yields : YieldsAll right_scan (closed, eight_table) (row 8 ∷ [])
right_Yields = (
  at_eight,
  begins_right,
  (reads_eight.0, (read_eight, reads_eight.1, (right_end, leaves_eight.0, leaves_eight.1))),
)

-- `eval_conds` on a joined record: the first column is less than the second.
abbrev join_cond : Condition ℕ
join_cond = columns_cond (column_name table_a 0) op_lt (column_name table_b 0)

abbrev joined_cols : List ColMeta
joined_cols = column table_a 0 ∷ record (column table_b 0) { offset = 4 } ∷ []

abbrev accepts : List ℕ → List ℕ → Result Bool
accepts a b = eval_conds sample_floats joined_cols (a ++ b) (join_cond ∷ [])

join_cond-IsTyped : IsTyped joined_cols join_cond
unfolding find_col str_eq
join_cond-IsTyped = record {
  no_value = refl;
  one_side = refl;
  meta = column table_a 0;
  left = refl;
  value = λ v. cc (v);
  members = λ m. cc;
  column = λ a b. (record (column table_b 0) { offset = 4 }, refl);
}

abbrev is_accepted : Result Bool → Bool
is_accepted (ok b) = b
is_accepted (raise e) = false

abbrev test : List ℕ → List ℕ → Bool
test a b = is_accepted (accepts a b)

evaluates : (a b : List ℕ) → accepts a b ≡ ok (test a b)
evaluates a b =
    let (holds, e) =
      eval_conds-ok sample_floats joined_cols (a ++ b) (join_cond ∷ []) (join_cond-IsTyped, tt) in
    e ∙ sym (ap (λ r. ok (is_accepted r)) e)

abbrev closed_join : Join (SeqScan × Table) (SeqScan × Table) (List ℕ) (List ℕ)
closed_join = record {
  left = (closed, seven_table);
  right = (closed, eight_table);
  isend = false;
  left_rec = none;
  right_rec = none;
  right_records = [];
  right_pos = minus_one;
}

join_executor-Yields_example :
    YieldsAll
      (join_executor 1 left_scan right_scan accepts)
      closed_join
      (joined test (row 7 ∷ []) (row 8 ∷ []))
join_executor-Yields_example =
    join_executor-Yields 1 left_scan right_scan accepts test evaluates (row 7 ∷ []) (row 8 ∷ [])
      closed_join left_Yields right_Yields (omega arith) (omega arith)

-- The join on the tuple of 7 and 8, with none to come.
abbrev on_seven : Join (SeqScan × Table) (SeqScan × Table) (List ℕ) (List ℕ)
on_seven = record {
  left = read_seven;
  right = right_end;
  isend = false;
  left_rec = some (row 7);
  right_rec = some (row 8);
  right_records = some (row 8) ∷ [];
  right_pos = pos 0;
}

accepts_seven : test (row 7) (row 8) ≡ true
unfolding eval_conds get_col_at str_eq compare_result int_lt read_int is_numeric_type type_eq
accepts_seven = refl

abbrev one_pair : List (List ℕ × List ℕ)
one_pair = (row 7, row 8) ∷ []

on_seven-Ready : Ready 1 left_scan right_scan accepts test evaluates (row 8 ∷ []) on_seven one_pair
unfolding eval_conds get_col_at str_eq compare_result int_lt read_int is_numeric_type type_eq
on_seven-Ready = inr (record {
  going = refl;
  a = row 7;
  rest = [];
  b = row 8;
  k = 0;
  left = (left_end, leaves_seven.0, leaves_seven.1);
  enough = omega arith;
  left_rec = refl;
  right_rec = refl;
  records = refl;
  right_pos = refl;
  in_range = omega arith;
  accepted = accepts_seven;
  todo_is = refl;
})

next_tuple-Ready_example :
    ((t : List ℕ × List ℕ) (more : List (List ℕ × List ℕ))
      → one_pair ≡ t ∷ more
      → (on_seven.isend ≡ false)
        × (db2024_main.Execution.Join.next 1 left_scan right_scan accepts on_seven ≡ some t)
        × ((j2 : Join (SeqScan × Table) (SeqScan × Table) (List ℕ) (List ℕ))
            × (db2024_main.Execution.Join.next_tuple 1 left_scan right_scan accepts on_seven
                ≡ ok j2)
            × Ready 1 left_scan right_scan accepts test evaluates (row 8 ∷ []) j2 more))
    × (one_pair ≡ []
        → (on_seven.isend ≡ true)
          × (db2024_main.Execution.Join.next 1 left_scan right_scan accepts on_seven ≡ none)
          × (db2024_main.Execution.Join.next_tuple 1 left_scan right_scan accepts on_seven
              ≡ ok on_seven))
next_tuple-Ready_example =
    next_tuple-Ready 1 left_scan right_scan accepts test evaluates (row 8 ∷ []) on_seven one_pair
      on_seven-Ready
