-- ===== src/Record/Layout.antt =====
-- record/rm_manager.h `create_file` and rm_defs.h: the header of a table file, and
-- rm_file_handle.h `RmPageHandle`: where a page keeps its header, its bitmap and its slots. Sizes
-- are in bytes; an `int` has 4.
pub mod Fits
mod Tests
use db2024_main.Common.{
  ℕ, Result, if◌then◌else◌, invalid_record_size, ltb, minus_one, negsuc, ok, pos, raise, ℤ, ◌*◌,
  ◌+◌, ◌-◌, ◌/◌, ◌||◌,
}

abbrev pub page_size : ℕ
page_size = 4096

abbrev pub rm_max_record_size : ℕ
rm_max_record_size = 512

-- `sizeof(RmFileHdr)`, five `int`s, and `sizeof(RmPageHdr)`, two.
abbrev pub sizeof_file_hdr : ℕ
sizeof_file_hdr = 20

abbrev pub sizeof_page_hdr : ℕ
sizeof_page_hdr = 8

-- `Page::OFFSET_PAGE_HDR`
abbrev pub offset_page_hdr : ℕ
offset_page_hdr = 4

-- RM_NO_PAGE and RM_FIRST_RECORD_PAGE.
abbrev pub rm_no_page : ℤ
rm_no_page = minus_one

abbrev pub rm_first_record_page : ℕ
rm_first_record_page = 1

pub record RmFileHdr : Type 0 where
  pub record_size : ℕ
  pub num_pages : ℕ
  pub num_records_per_page : ℕ
  pub first_free_page_no : ℤ
  pub bitmap_size : ℕ

unfoldable pub records_per_page : ℕ → ℕ
records_per_page record_size = (8 * (page_size - 1 - sizeof_file_hdr) + 1) / (1 + record_size * 8)

unfoldable pub bitmap_bytes : ℕ → ℕ
bitmap_bytes n = (n + 8 - 1) / 8

-- The header that `create_file` writes, for a size that passes the check.
unfoldable pub file_hdr : ℕ → RmFileHdr
unfolding records_per_page bitmap_bytes
file_hdr record_size = record {
  record_size = record_size;
  num_pages = 1;
  num_records_per_page = records_per_page record_size;
  first_free_page_no = rm_no_page;
  bitmap_size = bitmap_bytes (records_per_page record_size);
}

unfoldable pub create_file : ℤ → Result RmFileHdr
unfolding file_hdr
create_file (negsuc n) = raise invalid_record_size
create_file (pos n) =
    if ltb n 1 || ltb rm_max_record_size n then raise invalid_record_size else ok (file_hdr n)

-- The offsets of the bitmap and of a slot in a page.
unfoldable pub bitmap_offset : ℕ
bitmap_offset = sizeof_page_hdr + offset_page_hdr

unfoldable pub slot_offset : RmFileHdr → ℕ → ℕ
unfolding bitmap_offset
slot_offset h slot_no = bitmap_offset + h.bitmap_size + slot_no * h.record_size
