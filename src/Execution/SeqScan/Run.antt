-- ===== src/Execution/SeqScan/Run.antt =====
-- `beginTuple` and `nextTuple` of a sequential scan.
use db2024_main.Common.{
  ℕ, Bool, List, arith, false, negsuc, ok, pos, some, true, ◌*◌, ◌+◌, ◌<◌, ◌∙◌, ◌≡◌, ◌≤◌, ap,
}
use db2024_main.Catalog.{ColMeta}
use db2024_main.Query.{Condition, Floats}
use db2024_main.Record.File.Valid.{IsValid, per_page, record_at}
use db2024_main.Record.File.Access.{rid_at}
use db2024_main.Record.Scan
use db2024_main.Execution.SeqScan.{SeqScan, Table, begin_tuple, next_at, next_tuple, slot_count}
use db2024_main.Execution.SeqScan.Match.{Meets, place}
use db2024_main.Execution.SeqScan.Seek.{Kept, Kept-refl, Sought, move, seek-Sought}

module _ {F D : Type 0} (fl : Floats F D) (cols : List ColMeta) (conds : List (Condition F))
    (s0 : Table) (granted : (c : ℕ) → s0.grants c ≡ true)
    (evaluates : (m i : ℕ) (d : List ℕ)
      → record_at m i s0 ≡ some d
      → (b : Bool) × Meets fl cols conds d b) where
  -- The rounds are enough from every slot.
  enough : (s : Table) → Kept s0 s → (n : ℕ) → slot_count s0 ≤ slot_count s + n
  enough s k n = omega (arith, ap (λ h. h.num_pages * h.num_records_per_page) k.same.hdr)

  not_ended : (m i : ℕ) → m < s0.hdr.num_pages → Scan.is_end (rid_at m i) s0 ≡ false
  unfolding Scan.is_end
  not_ended m i h = ground arith

  -- In a valid file of which the pool grants every page, where the conditions can be evaluated on
  -- every record, `beginTuple` returns and stands at the first record of the table that meets the
  -- conditions, in the order of pages and slots, or at the end if no record does; the file keeps its
  -- records, pins and validity.
  pub begin_tuple-Sought :
      (q : SeqScan)
      → IsValid s0
      → (s2 : Table) × (q2 : SeqScan) × (begin_tuple fl cols conds q s0 ≡ (s2, ok q2))
        × Sought fl cols conds s0 granted evaluates 1 (negsuc 0) s2 q2
  unfolding begin_tuple Scan.open_scan
  begin_tuple-Sought q v =
      let (s1, rid, e1, k1, moved) =
        move fl cols conds s0 granted evaluates 1 (negsuc 0) s0 (Kept-refl s0 v) (omega arith) in
      let (s2, q2, e2, found) =
        seek-Sought fl cols conds s0 granted evaluates (slot_count s1) 1 (negsuc 0) s1 rid q.rid k1
          moved (λ m i same. enough s1 k1 (place (per_page s0) m i)) in
      (s2, q2, rw e1 e2, found)

  -- Under the same conditions `nextTuple` of an iterator that stands in a slot of a page that is not
  -- the header page and is not at the end returns and stands at the first record behind it that
  -- meets the conditions, or at the end if none does; the file keeps its records, pins and validity.
  pub next_tuple-Sought :
      (m i : ℕ) (q : SeqScan)
      → IsValid s0
      → 0 < m
      → m < s0.hdr.num_pages
      → q.scan ≡ some (rid_at m i)
      → (s2 : Table) × (q2 : SeqScan) × (next_tuple fl cols conds q s0 ≡ (s2, ok q2))
        × Sought fl cols conds s0 granted evaluates m (pos i) s2 q2
  unfolding next_tuple next_at
  next_tuple-Sought m i q v positive inside at_slot =
      let k = Kept-refl s0 v in
      let (s1, rid, e1, k1, moved) =
        move fl cols conds s0 granted evaluates m (pos i) s0 k positive in
      let (s2, q2, e2, found) =
        seek-Sought fl cols conds s0 granted evaluates (slot_count s1) m (pos i) s1 rid q.rid k1
          moved (λ a b same. enough s1 k1 (place (per_page s0) a b)) in
      (
        s2,
        q2,
        ap (λ o. next_at fl cols conds q o s0) at_slot ∙ rw (not_ended m i inside, e1) e2,
        found,
      )
