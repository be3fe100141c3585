-- ===== src/Record/Scan.antt =====
-- record/rm_scan.h and .cpp: the iterator over the records of a table file. Its state is the record
-- id that it is at; the pages it visits are fetched from the file and unpinned.
pub mod First
use db2024_main.Common.{
  ℕ, Bool, M, false, if◌then◌else◌, leb, ltb, negsuc, ok, page_not_exist, pos, raise, suc, true,
  zero, ℤ, ◌+◌, ◌-◌, ◌>>=◌, ◌>>◌,
}
use db2024_main.Record.Bitmap
use db2024_main.Record.Layout.{rm_first_record_page}
use db2024_main.Record.File.{Rid, RmFile, unpin_page, fetch_page_handle}

-- `Rid{num_pages, -1}`
abbrev pub end_rid : ℕ → Rid
end_rid num_pages = record { page_no = pos num_pages; slot_no = negsuc 0 }

module _ {D : Type 0} where
  -- The next slot of a pinned page that holds a record; the page is unpinned.
  unfoldable pub next_slot : ℕ → ℤ → M (RmFile D) ℕ
  unfolding Bitmap.next_bit
  next_slot n slot_no s = (
    unpin_page n s,
    ok (Bitmap.next_bit true (s.pages n).bitmap s.hdr.num_records_per_page slot_no),
  )

  -- A slot of the page ends the loop.
  abbrev pub stop_or : ℕ → M (RmFile D) Rid → ℕ → M (RmFile D) Rid
  stop_or n rest i s =
      if ltb i s.hdr.num_records_per_page
      then (s, ok (record { page_no = pos n; slot_no = pos i }))
      else rest s

  -- The loop of `next` from the page `page_no` on, with the rounds that are left.
  unfoldable pub next_loop : ℕ → ℕ → ℤ → M (RmFile D) Rid
  unfolding fetch_page_handle next_slot
  next_loop zero page_no slot_no = λ s. (s, ok (end_rid s.hdr.num_pages))
  next_loop (suc rounds) page_no slot_no =
      let rest = next_loop rounds (page_no + 1) (negsuc 0) in
      do n ← fetch_page_handle (pos page_no); i ← next_slot n slot_no; stop_or page_no rest i

  -- One round for each page from the current one on. The first page is at least 1, so the page
  -- number of the iterator is never negative; a negative page is not in the file.
  unfoldable pub next_from : ℤ → ℤ → M (RmFile D) Rid
  unfolding next_loop
  next_from (pos n) slot_no s = next_loop (s.hdr.num_pages - n) n slot_no s
  next_from (negsuc n) slot_no s = (s, raise page_not_exist)

  unfoldable pub next : Rid → M (RmFile D) Rid
  unfolding next_from
  next rid = next_from rid.page_no rid.slot_no

  -- The constructor: from before the first slot of the first page with records.
  unfoldable pub open_scan : M (RmFile D) Rid
  unfolding next
  open_scan = next (record { page_no = pos rm_first_record_page; slot_no = negsuc 0 })

  unfoldable pub is_end : Rid → RmFile D → Bool
  is_end rid s = at_end rid.page_no s.hdr.num_pages
    where
      at_end : ℤ → ℕ → Bool
      at_end (pos n) num_pages = leb num_pages n
      at_end (negsuc n) num_pages = false
