-- ===== src/Execution/SeqScan/AsExecutor.antt =====
-- execution/executor_seq_scan.h: SeqScanExecutor as an AbstractExecutor. Its state is the scan's and the
-- file's; the tuples are the bytes of records.
use db2024_main.Common.{ℕ, List, Option, Result, ok, raise}
use db2024_main.Catalog.{ColMeta}
use db2024_main.Query.{Condition, Floats}
use db2024_main.Execution.Executor.{Executor}
use db2024_main.Execution.SeqScan.{SeqScan, Table, begin_tuple, is_end, next, next_tuple}

abbrev pub with_file : Table × Result SeqScan → Result (SeqScan × Table)
with_file (s, ok q) = ok (q, s)
with_file (s, raise e) = raise e

abbrev pub read_with_file :
    Table × Result (Option (List ℕ) × SeqScan) → Result (Option (List ℕ) × (SeqScan × Table))
read_with_file (s, ok (rec, q)) = ok (rec, (q, s))
read_with_file (s, raise e) = raise e

module _ {F D : Type 0} (fl : Floats F D) (cols : List ColMeta) (conds : List (Condition F)) where
  abbrev pub scan_executor : Executor (List ℕ)
  scan_executor = record {
    State = SeqScan × Table;
    begin_tuple = λ s. with_file (begin_tuple fl cols conds s.0 s.1);
    next_tuple = λ s. with_file (next_tuple fl cols conds s.0 s.1);
    is_end = λ s. is_end fl cols conds s.0 s.1;
    next = λ s. read_with_file (next fl cols conds s.0 s.1);
  }
