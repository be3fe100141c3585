-- ===== src/Record/File/Tests.antt =====
-- A table file of three slots on a page, empty and with one record.
use db2024_main.Common.{
  ℕ, [], arith, elem, false, internal_error, minus_one, negsuc, none, ok, pos, raise,
  record_not_found, refl, some, true, ◌≡◌, int_eq,
}
use db2024_main.Record.Bitmap
use db2024_main.Record.File.{
  Rid, RmFile, get_record, insert_record, update_record, delete_record, null_page, thrown,
}
use db2024_main.Record.File.Valid.{IsValid, in_file, record_at}
use db2024_main.Record.File.Insert.{Stored, insert_record-Stored}
use db2024_main.Record.File.Total.{insert_record-total}
use db2024_main.Record.File.Access.{
  rid_at, Unchanged, get_record_lem, Replaced, update_record-Replaced,
}
use db2024_main.Record.File.Remove.{Removed, delete_record-Removed}
use db2024_main.Record.Scan.{next}
use db2024_main.Record.Scan.First.{Advanced, next-first}

abbrev empty_file : RmFile ℕ
empty_file = record {
  hdr = record {
    record_size = 4;
    num_pages = 1;
    num_records_per_page = 3;
    first_free_page_no = minus_one;
    bitmap_size = 1;
  };
  pages = λ n. record {
    next_free_page_no = minus_one;
    num_records = 0;
    bitmap = λ b. 0;
    slots = λ i. 0;
  };
  pins = λ n. 0;
  grants = λ c. true;
  refusals = λ c. null_page;
  calls = 0;
  next_page = 1;
}

empty_file-IsValid : IsValid empty_file
unfolding elem
empty_file-IsValid = record {
  free = [];
  positive = omega arith;
  has_header = omega arith;
  numbered = refl;
  pages = λ n h. absurd (ground arith);
  chain = refl;
  distinct = tt;
  listed = λ n h. cc (h);
  room = λ n h. absurd (ground arith);
}

abbrev one_record : RmFile ℕ
one_record = (insert_record 0 42 empty_file).0

inserts : insert_record 0 42 empty_file ≡ (one_record, ok (rid_at 1 0))
unfolding insert_record int_eq Bitmap.is_set
inserts = refl

insert_record-Stored_example : Stored 0 empty_file one_record (rid_at 1 0) 42
insert_record-Stored_example =
    insert_record-Stored 0 42 empty_file one_record (rid_at 1 0) empty_file-IsValid inserts

-- A file whose pool throws when it is asked for a page.
abbrev failing_file : RmFile ℕ
failing_file = record empty_file {
  grants = λ c. false;
  refusals = λ c. thrown internal_error empty_file.pages;
}

failing_file-IsValid : IsValid failing_file
unfolding elem
failing_file-IsValid = record {
  free = [];
  positive = omega arith;
  has_header = omega arith;
  numbered = refl;
  pages = λ n h. absurd (ground arith);
  chain = refl;
  distinct = tt;
  listed = λ n h. cc (h);
  room = λ n h. absurd (ground arith);
}

insert_record-total_example :
    (failing_file.grants 0 ≡ true
      → (s2 : RmFile ℕ) × (rid : Rid) × (insert_record 0 42 failing_file ≡ (s2, ok rid)))
    × (failing_file.grants 0 ≡ false
        → insert_record 0 42 failing_file
          ≡ (record failing_file { calls = 1; next_page = 2 }, raise internal_error))
unfolding int_eq
insert_record-total_example = insert_record-total 0 42 failing_file failing_file-IsValid

one_record-IsValid : IsValid one_record
one_record-IsValid = insert_record-Stored_example.valid

there :
    (in_file 1 one_record ≡ true)
    × (record_at 1 0 one_record ≡ some 42)
    × (one_record.grants one_record.calls ≡ true)
unfolding insert_record record_at int_eq Bitmap.is_set
there = (refl, refl, refl)

get_record_lem_example :
    (s2 : RmFile ℕ) × Unchanged one_record s2
    × ((d : ℕ)
        → record_at 1 0 one_record ≡ some d
        → get_record (rid_at 1 0) one_record ≡ (s2, ok d))
    × (record_at 1 0 one_record ≡ none
        → get_record (rid_at 1 0) one_record ≡ (s2, raise record_not_found))
get_record_lem_example = get_record_lem 1 0 one_record one_record-IsValid there.0 there.2

update_record-Replaced_example :
    (s2 : RmFile ℕ) × (update_record (rid_at 1 0) 43 one_record ≡ (s2, ok tt))
    × Replaced one_record s2 1 0 43
update_record-Replaced_example =
    update_record-Replaced 1 0 43 42 one_record one_record-IsValid there.0 there.2 there.1

delete_record-Removed_example :
    (s2 : RmFile ℕ) × (delete_record 0 (rid_at 1 0) one_record ≡ (s2, ok tt))
    × Removed 0 one_record s2 1 0
delete_record-Removed_example =
    delete_record-Removed 0 1 0 42 one_record one_record-IsValid there.0 there.2 there.1

always : (c : ℕ) → one_record.grants c ≡ true
unfolding insert_record int_eq Bitmap.is_set
always c = refl

next-first_example :
    (s2 : RmFile ℕ) × (rid : Rid) × (next
        (record { page_no = pos 1; slot_no = negsuc 0 })
        one_record
      ≡ (s2, ok rid))
    × Advanced 1 (negsuc 0) one_record s2 rid
next-first_example = next-first 1 (negsuc 0) one_record one_record-IsValid always (omega arith)
