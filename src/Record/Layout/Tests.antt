-- ===== src/Record/Layout/Tests.antt =====
-- A table file of records of 100 bytes.
use db2024_main.Common.{ℕ, pos, refl, ◌+◌, ◌/◌, ◌<◌, ◌≡◌, ◌≤◌}
use db2024_main.Record.Layout.{
  file_hdr, create_file, bitmap_offset, slot_offset, page_size, rm_max_record_size,
}
use db2024_main.Record.Layout.Fits.{create_file_lem}

create_file_lem_example :
    (r : ℕ) × (pos 100 ≡ pos r)
    × (1 ≤ r)
    × (r ≤ rm_max_record_size)
    × (file_hdr 100 ≡ file_hdr r)
    × (7 ≤ (file_hdr 100).num_records_per_page)
    × ((slot : ℕ)
        → slot < (file_hdr 100).num_records_per_page
        → (bitmap_offset + slot / 8 < slot_offset (file_hdr 100) 0)
          × (slot_offset (file_hdr 100) slot + (file_hdr 100).record_size
              ≤ slot_offset (file_hdr 100) (slot + 1))
          × (slot_offset (file_hdr 100) slot + (file_hdr 100).record_size ≤ page_size))
unfolding create_file
create_file_lem_example = create_file_lem (pos 100) (file_hdr 100) refl
