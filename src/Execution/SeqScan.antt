-- ===== src/Execution/SeqScan.antt =====
-- execution/executor_seq_scan.h: the scan of a table for the records that meet the conditions. Its
-- state is the iterator `scan_`, none before `beginTuple`, and `rid_`; the file is that of `fh_`.
pub mod Keeps
pub mod Match
pub mod Seek
pub mod Run
pub mod AsExecutor
mod Tests
use db2024_main.Common.{
  ℕ, Bool, List, M, Option, false, if◌then◌else◌, none, ok, pure, some, suc, true, zero, ◌*◌, ◌>>=◌,
  ◌>>◌, get,
}
use db2024_main.Catalog.{ColMeta}
use db2024_main.Query.{Condition, Floats}
use db2024_main.Query.Eval.{eval_conds}
use db2024_main.Record.File.{Rid, RmFile, get_record}
use db2024_main.Record.Scan

pub record SeqScan : Type 0 where
  pub scan : Option Rid
  pub rid : Rid

-- A table file whose records are bytes.
abbrev pub Table : Type 0
Table = RmFile (List ℕ)

-- One round for each slot of the file.
abbrev pub slot_count : Table → ℕ
slot_count s = s.hdr.num_pages * s.hdr.num_records_per_page

module _ {F D : Type 0} (fl : Floats F D) (cols : List ColMeta) (conds : List (Condition F)) where
  -- `eval_conds` changes no file.
  unfoldable pub test : List ℕ → M Table Bool
  unfolding eval_conds
  test rec s = (s, eval_conds fl cols rec conds)

  -- A record that meets the conditions ends the loop.
  abbrev pub stop_or : Rid → M Table SeqScan → Bool → M Table SeqScan
  stop_or scan rest true = pure (record { scan = some scan; rid = scan })
  stop_or scan rest false = rest

  -- The loop of `beginTuple` and `nextTuple`, with the rounds that are left.
  unfoldable pub seek : ℕ → Rid → Rid → M Table SeqScan
  unfolding test
  seek zero scan rid s = (s, ok (record { scan = some scan; rid = rid }))
  seek (suc rounds) scan rid s =
      let visit =
        (do
          rec ← get_record scan
          holds ← test rec
          stop_or scan (Scan.next scan >>= λ next. seek rounds next scan) holds)
          s in
      if Scan.is_end scan s then (s, ok (record { scan = some scan; rid = rid })) else visit

  unfoldable pub begin_tuple : SeqScan → M Table SeqScan
  begin_tuple q = do scan ← Scan.open_scan; s ← get; seek (slot_count s) scan q.rid

  -- `nextTuple` with the iterator at hand.
  unfoldable pub next_at : SeqScan → Option Rid → M Table SeqScan
  next_at q none s = (s, ok q)
  next_at q (some scan) s =
      let move = (do next ← Scan.next scan; t ← get; seek (slot_count t) next q.rid) s in
      if Scan.is_end scan s then (s, ok q) else move

  unfoldable pub next_tuple : SeqScan → M Table SeqScan
  unfolding next_at
  next_tuple q = next_at q q.scan

  unfoldable pub is_end : SeqScan → Table → Bool
  unfolding Scan.is_end
  is_end q s = elim q.scan [ none ↦ true | some scan ↦ Scan.is_end scan s ]

  -- `Next()`, with the null pointer as `none`.
  unfoldable pub next : SeqScan → M Table (Option (List ℕ) × SeqScan)
  unfolding get_record Scan.is_end
  next q s = elim q.scan [
    | none ↦ (s, ok (none, q))
    | some scan ↦
        if Scan.is_end scan s
        then (s, ok (none, q))
        else (do rec ← get_record scan; pure (some rec, record q { rid = scan })) s
  ]
