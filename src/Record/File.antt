-- ===== src/Record/File.antt =====
-- record/rm_file_handle.h and .cpp: the pages of one open table file, as the buffer pool shows
-- them. A page is its header, its bitmap and its slots, over the type of a record's bytes.
-- Whether the buffer pool has a frame is up to it: `grants` answers its calls in order, and
-- `refusals` says how a call ends that it does not grant: with the null pointer, or with a throw of
-- the disk manager, which can leave any bytes in the pages that the pool shows. `pins`
-- counts the fetches of a page that were not unpinned, and `next_page` is the number that the disk
-- manager allocates next in the file.
pub mod Page
pub mod Chain
pub mod Valid
pub mod Handle
pub mod Open
pub mod Insert
pub mod Total
pub mod Access
pub mod Remove
mod Tests
use db2024_main.Common.{
  ℕ, Bool, Error, M, assertion_failed, false, get, if◌then◌else◌, int_eq, internal_error, leb, ltb,
  modify, negsuc, not, ok, page_not_exist, pos, pure, raise, record_not_found, true, ℤ, ◌+◌, ◌-◌,
  ◌==◌, ◌>>=◌, ◌>>◌, ◌||◌,
}
use db2024_main.Record.Bitmap
use db2024_main.Record.Bitmap.{Bytes}
use db2024_main.Record.Layout.{RmFileHdr, rm_no_page, rm_first_record_page}

-- `Rid` of defs.h.
pub record Rid : Type 0 where
  pub page_no : ℤ
  pub slot_no : ℤ

pub record RmPage (D : Type 0) : Type 0 where
  pub next_free_page_no : ℤ
  pub num_records : ℕ
  pub bitmap : Bytes
  pub slots : ℕ → D

pub data Refusal (D : Type 0) : Type 0 where
  null_page : Refusal D
  thrown : Error → (ℕ → RmPage D) → Refusal D

pub record RmFile (D : Type 0) : Type 0 where
  pub hdr : RmFileHdr
  pub pages : ℕ → RmPage D
  pub pins : ℕ → ℕ
  pub grants : ℕ → Bool
  pub refusals : ℕ → Refusal D
  pub calls : ℕ
  pub next_page : ℕ

-- A page or slot number that passed the checks.
abbrev pub to_nat : ℤ → ℕ
to_nat (pos n) = n
to_nat (negsuc n) = 0

-- `page_no < RM_FIRST_RECORD_PAGE || page_no >= num_pages`
unfoldable pub page_out : ℤ → ℕ → Bool
page_out (negsuc n) num_pages = true
page_out (pos n) num_pages = ltb n rm_first_record_page || leb num_pages n

-- `slot_no < 0 || slot_no >= num_records_per_page`
unfoldable pub slot_out : ℤ → ℕ → Bool
slot_out (negsuc n) per_page = true
slot_out (pos n) per_page = leb per_page n

abbrev pub with_page {ℓ} : {P : Type ℓ} → ℕ → P → (ℕ → P) → ℕ → P
with_page n x f m = if n == m then x else f m

module _ {D : Type 0} where
  abbrev pub pin : ℕ → RmFile D → RmFile D
  pin n s = record s { pins = with_page n (s.pins n + 1) s.pins; calls = s.calls + 1 }

  abbrev pub unpin_page : ℕ → RmFile D → RmFile D
  unpin_page n s = record s { pins = with_page n (s.pins n - 1) s.pins }

  abbrev pub write_to : ℕ → RmPage D → RmFile D → RmFile D
  write_to n p s = record s { pages = with_page n p s.pages }

  -- The handles throw `InternalError` for the null pointer.
  abbrev pub refusal_error : Refusal D → Error
  refusal_error null_page = internal_error
  refusal_error (thrown e pages) = e

  abbrev pub pages_left : Refusal D → (ℕ → RmPage D) → ℕ → RmPage D
  pages_left null_page old = old
  pages_left (thrown e pages) old = pages

  -- `new_page` has allocated the page's number before it can throw.
  abbrev pub allocated : Refusal D → ℕ → ℕ
  allocated null_page next_page = next_page
  allocated (thrown e pages) next_page = next_page + 1

  abbrev pub refused_fetch : RmFile D → RmFile D
  refused_fetch s = record s {
    calls = s.calls + 1;
    pages = pages_left (s.refusals s.calls) s.pages;
  }

  abbrev pub refused_new : RmFile D → RmFile D
  refused_new s = record s {
    calls = s.calls + 1;
    pages = pages_left (s.refusals s.calls) s.pages;
    next_page = allocated (s.refusals s.calls) s.next_page;
  }

  unfoldable pub fetch_page_handle : ℤ → M (RmFile D) ℕ
  unfolding page_out
  fetch_page_handle page_no s =
      if page_out page_no s.hdr.num_pages
      then (s, raise page_not_exist)
      else if s.grants s.calls
      then (pin (to_nat page_no) s, ok (to_nat page_no))
      else (refused_fetch s, raise (refusal_error (s.refusals s.calls)))

  -- The test that `get_record`, `delete_record` and `update_record` share.
  unfoldable pub missing : ℕ → ℤ → RmFile D → Bool
  unfolding slot_out
  missing n slot_no s =
      slot_out slot_no s.hdr.num_records_per_page
      || not (Bitmap.is_set (s.pages n).bitmap (to_nat slot_no))

  unfoldable pub get_record_in : ℤ → ℕ → M (RmFile D) D
  unfolding missing
  get_record_in slot_no n s =
      if missing n slot_no s
      then (unpin_page n s, raise record_not_found)
      else (unpin_page n s, ok ((s.pages n).slots (to_nat slot_no)))

  unfoldable pub get_record : Rid → M (RmFile D) D
  unfolding fetch_page_handle get_record_in
  get_record rid = do n ← fetch_page_handle rid.page_no; get_record_in rid.slot_no n

  unfoldable pub is_record : Rid → M (RmFile D) Bool
  unfolding fetch_page_handle
  is_record rid = do
    n ← fetch_page_handle rid.page_no
    s ← get
    modify (unpin_page n)
    pure (Bitmap.is_set (s.pages n).bitmap (to_nat rid.slot_no))

  unfoldable pub update_record_in : ℤ → D → ℕ → M (RmFile D) (Unit {0})
  unfolding missing
  update_record_in slot_no buf n s =
      let p = s.pages n in
      if missing n slot_no s then (unpin_page n s, raise record_not_found) else (
        unpin_page n (write_to n (record p { slots = with_page (to_nat slot_no) buf p.slots }) s),
        ok tt,
      )

  unfoldable pub update_record : Rid → D → M (RmFile D) (Unit {0})
  unfolding fetch_page_handle update_record_in
  update_record rid buf = do n ← fetch_page_handle rid.page_no; update_record_in rid.slot_no buf n

  module _ (zeros : D) where
    -- `new_page` leaves a page of zeros; then the header and the bitmap are initialised.
    unfoldable pub blank_page : RmFile D → RmPage D
    unfolding Bitmap.init
    blank_page s = record {
      next_free_page_no = s.hdr.first_free_page_no;
      num_records = 0;
      bitmap = Bitmap.init s.hdr.bitmap_size (λ b. 0);
      slots = λ i. zeros;
    }

    unfoldable pub create_new_page_handle : M (RmFile D) ℕ
    unfolding blank_page
    create_new_page_handle s =
        let n = s.next_page in
        if s.grants s.calls
        then (
          record s {
            hdr = record s.hdr { num_pages = s.hdr.num_pages + 1; first_free_page_no = pos n };
            pages = with_page n (blank_page s) s.pages;
            pins = with_page n (s.pins n + 1) s.pins;
            calls = s.calls + 1;
            next_page = n + 1;
          },
          ok n,
        )
        else (refused_new s, raise (refusal_error (s.refusals s.calls)))

    unfoldable pub create_page_handle : M (RmFile D) ℕ
    unfolding create_new_page_handle fetch_page_handle
    create_page_handle s =
        if int_eq s.hdr.first_free_page_no rm_no_page
        then create_new_page_handle s
        else fetch_page_handle s.hdr.first_free_page_no s

    -- A page with one more record, in the given slot.
    unfoldable pub add_record : ℕ → D → RmPage D → RmPage D
    unfolding Bitmap.set_bit
    add_record slot_no buf p = record p {
      bitmap = Bitmap.set_bit slot_no p.bitmap;
      slots = with_page slot_no buf p.slots;
      num_records = p.num_records + 1;
    }

    -- When the page is full it leaves the list of free pages.
    unfoldable pub unlink_full : ℕ → RmFile D → RmFile D
    unlink_full n s =
        let p = s.pages n in
        if p.num_records == s.hdr.num_records_per_page
        then record s {
          hdr = record s.hdr { first_free_page_no = p.next_free_page_no };
          pages = with_page n (record p { next_free_page_no = rm_no_page }) s.pages;
        }
        else s

    unfoldable pub insert_in : D → ℕ → M (RmFile D) Rid
    unfolding Bitmap.first_bit add_record unlink_full
    insert_in buf n s =
        let slot_no = Bitmap.first_bit false (s.pages n).bitmap s.hdr.num_records_per_page in
        if ltb slot_no s.hdr.num_records_per_page
        then (
          unpin_page n (unlink_full n (write_to n (add_record slot_no buf (s.pages n)) s)),
          ok (record { page_no = pos n; slot_no = pos slot_no }),
        )
        else (s, raise assertion_failed)

    unfoldable pub insert_record : D → M (RmFile D) Rid
    unfolding create_page_handle insert_in
    insert_record buf = do n ← create_page_handle; insert_in buf n

    -- A page with one record less.
    unfoldable pub drop_record : ℕ → RmPage D → RmPage D
    unfolding Bitmap.reset_bit
    drop_record slot_no p = record p {
      bitmap = Bitmap.reset_bit slot_no p.bitmap;
      slots = with_page slot_no zeros p.slots;
      num_records = p.num_records - 1;
    }

    unfoldable pub release_page_handle : ℕ → RmFile D → RmFile D
    release_page_handle n s = record s {
      hdr = record s.hdr { first_free_page_no = pos n };
      pages =
          with_page n (record (s.pages n) { next_free_page_no = s.hdr.first_free_page_no }) s.pages;
    }

    unfoldable pub delete_record_in : ℤ → ℕ → M (RmFile D) (Unit {0})
    unfolding missing drop_record release_page_handle
    delete_record_in slot_no n s =
        let was_full = (s.pages n).num_records == s.hdr.num_records_per_page in
        let s1 = write_to n (drop_record (to_nat slot_no) (s.pages n)) s in
        if missing n slot_no s
        then (unpin_page n s, raise record_not_found)
        else (unpin_page n (if was_full then release_page_handle n s1 else s1), ok tt)

    unfoldable pub delete_record : Rid → M (RmFile D) (Unit {0})
    unfolding fetch_page_handle delete_record_in
    delete_record rid = do n ← fetch_page_handle rid.page_no; delete_record_in rid.slot_no n
