-- ===== src/Record/File/Insert.antt =====
-- rm_file_handle.cpp, `insert_record`.
use db2024_main.Common.{
  ℕ, bind_pair-eq-ok, List, arith, false, if◌then◌else◌, ok, pos, subst, ◌+◌, ◌==◌, ◌∷◌, ◌≡◌,
  Bool-cases, inl, inr, sym, true, elem, Distinct, some, ◌&&◌, ◌-◌, ◌<◌, none, ◌∙◌, ap,
}
use db2024_main.Record.Bitmap.{is_set, first_bit}
use db2024_main.Record.Bitmap.Slots.{is_set-set_bit}
use db2024_main.Record.File.{
  Rid, RmFile, unpin_page, write_to, create_page_handle, add_record, unlink_full, insert_in,
  insert_record,
}
use db2024_main.Record.File.Page.{IsPage, IsPage-same, first_bit_free, add_record-IsPage}
use db2024_main.Record.File.Chain.{Chain-same, Chain}
use db2024_main.Record.File.Valid.{IsValid, per_page, in_file, record_at}
use db2024_main.Record.File.Open.{Opened, open_handle}

module _ {D : Type 0} (zeros : D) where
  -- The file after the record is added to the page `n`, which heads the free pages.
  unfoldable pub inserted : ℕ → ℕ → D → RmFile D → RmFile D
  inserted n i buf s =
      unpin_page n (unlink_full zeros n (write_to n (add_record zeros i buf (s.pages n)) s))

  module _ (s : RmFile D) (n i : ℕ) (buf : D) (rest : List ℕ) (v : IsValid s)
      (head : v.free ≡ n ∷ rest) (lt : i < per_page s)
      (new : is_set (s.pages n).bitmap i ≡ false) where
    here :
        (in_file n s ≡ true)
        × ((s.pages n).num_records < per_page s)
        × (elem n rest ≡ false)
        × Distinct rest
        × (s.hdr.first_free_page_no ≡ pos n)
        × Chain s.pages (s.pages n).next_free_page_no rest
    unfolding elem
    here =
        let d : Distinct (n ∷ rest) = subst Distinct head v.distinct in
        let l = v.listed n (rw head (ground arith)) in
        let c : Chain s.pages s.hdr.first_free_page_no (n ∷ rest) =
          subst (Chain s.pages s.hdr.first_free_page_no) head v.chain in
        (l.0, l.1, d.0, d.1, c.0, c.1)

    page : IsPage (per_page s) (add_record zeros i buf (s.pages n))
    page = add_record-IsPage zeros (per_page s) i buf (s.pages n) (v.pages n here.0) lt new

    record_at-inserted :
        (m j : ℕ)
        → record_at m j (inserted n i buf s)
          ≡ (if n == m && i == j then some buf else record_at m j s)
    unfolding record_at inserted unlink_full add_record
    record_at-inserted m j =
        ground (arith, here.0, (is_set-set_bit i j (s.pages n).bitmap (v.pages n here.0).bytes).0)

    pins-inserted :
        (m : ℕ) → (inserted n i buf s).pins m ≡ (if n == m then s.pins n - 1 else s.pins m)
    unfolding inserted unlink_full
    pins-inserted m = ground arith

    inserted_page :
        (m : ℕ)
        → in_file m (inserted n i buf s) ≡ true
        → IsPage (per_page (inserted n i buf s)) ((inserted n i buf s).pages m)
    unfolding inserted unlink_full
    inserted_page m h = elim (Bool-cases (n == m)) [
      | inl at_n ↦
          IsPage-same (per_page s) _ (add_record zeros i buf (s.pages n)) _ (ground arith)
            (ground arith) (ground arith) page
      | inr off_n ↦
          IsPage-same (per_page s) _ (s.pages m) _ (ground arith) (ground arith) (ground arith)
            (v.pages m (ground arith))
    ]

    room_now :
        (m : ℕ)
        → in_file m s ≡ true
        → (s.pages m).num_records < per_page s
        → elem m (n ∷ rest) ≡ true
    room_now m =
        subst (λ f. in_file m s ≡ true → (s.pages m).num_records < per_page s → elem m f ≡ true)
          head (v.room m)

    inserted-IsValid : IsValid (inserted n i buf s)
    unfolding inserted unlink_full elem add_record
    inserted-IsValid = elim (Bool-cases ((s.pages n).num_records + 1 == per_page s)) [
      | inl full ↦ record {
        free = rest;
        positive = ground (arith, v.positive);
        has_header = ground (arith, v.has_header);
        numbered = ground (arith, v.numbered);
        pages = inserted_page;
        chain =
            Chain-same s.pages (inserted n i buf s).pages (s.pages n).next_free_page_no
              (inserted n i buf s).hdr.first_free_page_no rest (ground arith)
              (λ m l. ground (arith, here.2)) here.5;
        distinct = here.3;
        listed = λ m l. ground (arith, v.listed m (rw head (ground arith)), here.2);
        room = λ m h r. ground (arith, room_now m);
      }
      | inr more ↦ record {
        free = n ∷ rest;
        positive = ground (arith, v.positive);
        has_header = ground (arith, v.has_header);
        numbered = ground (arith, v.numbered);
        pages = inserted_page;
        chain = (
          ground (arith, here.4),
          Chain-same s.pages (inserted n i buf s).pages (s.pages n).next_free_page_no
              ((inserted n i buf s).pages n).next_free_page_no rest (ground arith)
              (λ m l. ground (arith, here.2)) here.5,
        );
        distinct = (here.2, here.3);
        listed = λ m l. ground (arith, here.1, v.listed m (rw head l));
        room = λ m h r. ground (arith, room_now m);
      }
    ]

  -- What an insert that returns guarantees: the slot was free, it holds the record, every other
  -- record is as it was, the file is valid and no page is left pinned.
  pub record Stored (s s2 : RmFile D) (rid : Rid) (buf : D) : Type 0 where
    pub valid : IsValid s2
    pub page : ℕ
    pub slot : ℕ
    pub at_rid : rid ≡ record { page_no = pos page; slot_no = pos slot }
    pub was_free : record_at page slot s ≡ none
    pub records :
        (m j : ℕ)
        → record_at m j s2 ≡ (if page == m && slot == j then some buf else record_at m j s)
    pub unpinned : (m : ℕ) → s2.pins m ≡ s.pins m

  pub head_listed : (n : ℕ) (rest l : List ℕ) → l ≡ n ∷ rest → elem n l ≡ true
  unfolding elem
  head_listed n rest l e = rw e (ground arith)

  empty_slot :
      (n i : ℕ) (s : RmFile D) → is_set (s.pages n).bitmap i ≡ false → record_at n i s ≡ none
  unfolding record_at
  empty_slot n i s h = ground arith

  insert_in-Stored :
      (s s1 s2 : RmFile D) (n : ℕ) (buf : D) (rid : Rid)
      → Opened zeros s s1 n
      → insert_in zeros buf n s1 ≡ (s2, ok rid)
      → Stored s s2 rid buf
  unfolding insert_in inserted
  insert_in-Stored s s1 s2 n buf rid o h =
      let v = o.valid in
      let listed = v.listed n (head_listed n o.rest v.free o.head) in
      let i = first_bit false (s1.pages n).bitmap (per_page s1) in
      let (lt, new) =
        first_bit_free (per_page s1) (s1.pages n).bitmap
          (omega (arith, listed.1, (v.pages n listed.0).counted)) in
      let e : inserted n i buf s1 ≡ s2 = ground (arith, lt) in
      let named : record { page_no = pos n; slot_no = pos i } ≡ rid = ground (arith, lt) in
      subst (λ x. Stored s x rid buf) e
        (record {
          valid = inserted-IsValid s1 n i buf o.rest v o.head lt new;
          page = n;
          slot = i;
          at_rid = sym named;
          was_free = sym (o.same n i) ∙ empty_slot n i s1 new;
          records = λ m j.
              record_at-inserted s1 n i buf o.rest v o.head lt new m j
              ∙ ap (λ r. if n == m && i == j then some buf else r) (o.same m j);
          unpinned = λ m.
              ground
                (arith, pins-inserted s1 n i buf o.rest v o.head lt new m, o.pinned m, o.pinned n);
        })

  -- On a valid file, `insert_record` that returns a record id has stored the record in a slot
  -- that was free; every other record and the pins are kept, and the file is valid.
  pub insert_record-Stored :
      (buf : D) (s s2 : RmFile D) (rid : Rid)
      → IsValid s
      → insert_record zeros buf s ≡ (s2, ok rid)
      → Stored s s2 rid buf
  unfolding insert_record
  insert_record-Stored buf s s2 rid v h =
      let (s1, n, opened, h2) = bind_pair-eq-ok (create_page_handle zeros s) _ h in
      insert_in-Stored s s1 s2 n buf rid (open_handle zeros s s1 n v opened) h2
