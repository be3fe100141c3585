-- ===== src/Record/File/Remove.antt =====
-- rm_file_handle.cpp, `delete_record` and `release_page_handle`.
use db2024_main.Common.{
  ℕ, Bool-cases, arith, elem, false, if◌then◌else◌, inl, inr, none, true, ◌&&◌, ◌-◌, ◌<◌, ◌==◌, ◌∷◌,
  ◌≡◌, ok, pos, some,
}
use db2024_main.Record.Bitmap.{is_set}
use db2024_main.Record.Bitmap.Slots.{is_set-reset_bit}
use db2024_main.Record.File.{
  RmFile, pin, unpin_page, write_to, missing, drop_record, release_page_handle, delete_record_in,
  delete_record,
}
use db2024_main.Record.File.Page.{IsPage, IsPage-same, drop_record-IsPage}
use db2024_main.Record.File.Chain.{Chain-same}
use db2024_main.Record.File.Handle.{fetch_page_handle-granted}
use db2024_main.Record.File.Valid.{IsValid, per_page, in_file, record_at}
use db2024_main.Record.File.Open.{pin-IsValid}
use db2024_main.Record.File.Access.{rid_at}

module _ {D : Type 0} (zeros : D) where
  -- What a deletion guarantees: the slot holds no record, and every other record is as it was.
  pub record Removed (s s2 : RmFile D) (n i : ℕ) : Type 0 where
    pub valid : IsValid s2
    pub records :
        (m j : ℕ) → record_at m j s2 ≡ (if n == m && i == j then none else record_at m j s)
    pub pinned : (m : ℕ) → s2.pins m ≡ s.pins m

  -- The file after the record of the slot is dropped.
  unfoldable pub removed : ℕ → ℕ → RmFile D → RmFile D
  removed n i s =
      let s1 = write_to n (drop_record zeros i (s.pages n)) s in
      unpin_page n (
        if (s.pages n).num_records == s.hdr.num_records_per_page
        then release_page_handle zeros n s1
        else s1)

  module _ (s : RmFile D) (n i : ℕ) (v : IsValid s) (inside : in_file n s ≡ true)
      (lt : i < per_page s) (old : is_set (s.pages n).bitmap i ≡ true) where
    page : IsPage (per_page s) (drop_record zeros i (s.pages n))
    page = drop_record-IsPage zeros (per_page s) i (s.pages n) (v.pages n inside) lt old

    record_at-removed :
        (m j : ℕ)
        → record_at m j (removed n i s) ≡ (if n == m && i == j then none else record_at m j s)
    unfolding record_at removed release_page_handle drop_record
    record_at-removed m j =
        ground (arith, inside, (is_set-reset_bit i j (s.pages n).bitmap (v.pages n inside).bytes).0)

    pins-removed : (m : ℕ) → (removed n i s).pins m ≡ (if n == m then s.pins n - 1 else s.pins m)
    unfolding removed release_page_handle
    pins-removed m = ground arith

    removed_page :
        (m : ℕ)
        → in_file m (removed n i s) ≡ true
        → IsPage (per_page (removed n i s)) ((removed n i s).pages m)
    unfolding removed release_page_handle
    removed_page m h = elim (Bool-cases (n == m)) [
      | inl at_n ↦
          IsPage-same (per_page s) _ (drop_record zeros i (s.pages n)) _ (ground arith)
            (ground arith) (ground arith) page
      | inr off_n ↦
          IsPage-same (per_page s) _ (s.pages m) _ (ground arith) (ground arith) (ground arith)
            (v.pages m (ground arith))
    ]

    not_listed : (s.pages n).num_records ≡ per_page s → elem n v.free ≡ false
    not_listed full = elim (Bool-cases (elem n v.free)) [
      | inl on ↦ absurd (omega (arith, (v.listed n on).1))
      | inr off ↦ off
    ]

    removed-IsValid : IsValid (removed n i s)
    unfolding removed release_page_handle elem drop_record
    removed-IsValid = elim (Bool-cases ((s.pages n).num_records == per_page s)) [
      | inl full ↦ record {
        free = n ∷ v.free;
        positive = ground (arith, v.positive);
        has_header = ground (arith, v.has_header);
        numbered = ground (arith, v.numbered);
        pages = removed_page;
        chain = (
          ground arith,
          Chain-same s.pages (removed n i s).pages s.hdr.first_free_page_no
              ((removed n i s).pages n).next_free_page_no v.free (ground arith)
              (λ m l. ground (arith, not_listed)) v.chain,
        );
        distinct = (not_listed (ground arith), v.distinct);
        listed = λ m l. ground (arith, inside, v.positive, v.listed m);
        room = λ m h r. ground (arith, v.room m);
      }
      | inr more ↦ record {
        free = v.free;
        positive = ground (arith, v.positive);
        has_header = ground (arith, v.has_header);
        numbered = ground (arith, v.numbered);
        pages = removed_page;
        chain =
            Chain-same s.pages (removed n i s).pages s.hdr.first_free_page_no
              (removed n i s).hdr.first_free_page_no v.free (ground arith) (λ m l. ground arith)
              v.chain;
        distinct = v.distinct;
        listed = λ m l. ground (arith, inside, v.positive, v.listed m);
        room = λ m h r. ground (arith, v.room m, v.room n, page.counted);
      }
    ]

  -- A slot that holds a record is a marked slot of a page.
  marked :
      (n i : ℕ) (old : D) (s : RmFile D)
      → record_at n i s ≡ some old
      → (i < per_page s) × (is_set (s.pages n).bitmap i ≡ true)
  unfolding record_at
  marked n i old s r = ground arith

  removed-Removed :
      (n i : ℕ) (old : D) (s : RmFile D)
      → IsValid s
      → in_file n s ≡ true
      → record_at n i s ≡ some old
      → Removed s (removed n i (pin n s)) n i
  unfolding record_at
  removed-Removed n i old s v h r =
      let (lt, on) = marked n i old s r in
      let w = pin-IsValid zeros n s v in
      record {
        valid = removed-IsValid (pin n s) n i w h lt on;
        records = record_at-removed (pin n s) n i w h lt on;
        pinned = λ m. ground (arith, pins-removed (pin n s) n i w h lt on m);
      }

  delete_in :
      (n i : ℕ) (old : D) (s : RmFile D)
      → in_file n s ≡ true
      → record_at n i s ≡ some old
      → delete_record_in zeros (pos i) n (pin n s) ≡ (removed n i (pin n s), ok tt)
  unfolding delete_record_in record_at missing removed
  delete_in n i old s h r = ground arith

  -- On a valid file whose buffer pool grants the page, `delete_record` of a record of the file
  -- returns and frees its slot: every other record and the pins are kept, and the file is valid, so
  -- that a page that was full is again on the list of pages with free slots.
  pub delete_record-Removed :
      (n i : ℕ) (old : D) (s : RmFile D)
      → IsValid s
      → in_file n s ≡ true
      → s.grants s.calls ≡ true
      → record_at n i s ≡ some old
      → (s2 : RmFile D) × (delete_record zeros (rid_at n i) s ≡ (s2, ok tt)) × Removed s s2 n i
  unfolding delete_record
  delete_record-Removed n i old s v h g r = (
    removed n i (pin n s),
    rw (fetch_page_handle-granted n s h g) (delete_in n i old s h r),
    removed-Removed n i old s v h r,
  )
