-- ===== src/Record/Layout/Fits.antt =====
-- rm_manager.h, `create_file`: its sizes against the size of a page.
use db2024_main.Common.{ℕ, arith, negsuc, ok, pos, ℤ, ◌*◌, ◌+◌, ◌/◌, ◌<◌, ◌≡◌, ◌≤◌, refl}
use native.Mathlib.Nat.{div-mul-le_self, le-div_iff_mul-le}
use db2024_main.Record.Layout.{
  RmFileHdr, records_per_page, bitmap_bytes, file_hdr, create_file, bitmap_offset, slot_offset,
  page_size, rm_max_record_size,
}

per_page_bound : (r : ℕ) → records_per_page r + 8 * (records_per_page r * r) ≤ 32601
unfolding records_per_page
per_page_bound r = omega (arith, div-mul-le_self 32601 (1 + r * 8))

seven_fit : (r : ℕ) → r ≤ 512 → 7 ≤ records_per_page r
unfolding records_per_page
seven_fit r h =
    (le-div_iff_mul-le {k = 1 + r * 8} {x = 7} {y = 32601} (omega arith)).1 (omega arith)

bitmap_room : (n slot : ℕ) → slot < n → slot / 8 < bitmap_bytes n
unfolding bitmap_bytes
bitmap_room n slot h = omega arith

bitmap_bound : (n : ℕ) → 8 * bitmap_bytes n ≤ n + 7
unfolding bitmap_bytes
bitmap_bound n = omega arith

slot_room :
    (r slot : ℕ)
    → slot < records_per_page r
    → 12 + bitmap_bytes (records_per_page r) + slot * r + r ≤ 4096
slot_room r slot h =
    let room : slot * r + r ≤ records_per_page r * r = grind arith in
    omega (arith, room, per_page_bound r, bitmap_bound (records_per_page r))

-- A header that `create_file` returns is for a record size from 1 to 512. Its slots lie one
-- after the other behind the bitmap, all of them inside the page, the bitmap has a bit for each,
-- and there are at least seven.
pub create_file_lem :
    (size : ℤ) (h : RmFileHdr)
    → create_file size ≡ ok h
    → (r : ℕ) × (size ≡ pos r)
      × (1 ≤ r)
      × (r ≤ rm_max_record_size)
      × (h ≡ file_hdr r)
      × (7 ≤ h.num_records_per_page)
      × ((slot : ℕ)
          → slot < h.num_records_per_page
          → (bitmap_offset + slot / 8 < slot_offset h 0)
            × (slot_offset h slot + h.record_size ≤ slot_offset h (slot + 1))
            × (slot_offset h slot + h.record_size ≤ page_size))
unfolding create_file slot_offset bitmap_offset
create_file_lem (negsuc n) h e = cc (e)
create_file_lem (pos r) h e =
    let low : 1 ≤ r = ground arith in
    let high : r ≤ 512 = ground arith in
    let same : h ≡ file_hdr r = ground arith in
    (
      r,
      refl,
      low,
      high,
      same,
      rw same (seven_fit r high),
      rw same (λ slot lt. (
        omega (arith, bitmap_room (records_per_page r) slot lt),
        omega arith,
        slot_room r slot lt,
      )),
    )
