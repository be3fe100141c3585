-- ===== src/Record/File/Access.antt =====
-- `get_record` and `update_record`.
use db2024_main.Common.{
  ℕ, arith, false, if◌then◌else◌, none, ok, pos, raise, record_not_found, refl, some, true, ◌==◌,
  ◌&&◌, ◌≡◌,
}
use db2024_main.Record.File.{
  Rid, RmFile, with_page, pin, unpin_page, write_to, missing, get_record_in, get_record,
  update_record_in, update_record,
}
use db2024_main.Record.File.Page.{IsPage-same}
use db2024_main.Record.File.Chain.{Chain-same}
use db2024_main.Record.File.Handle.{fetch_page_handle-granted}
use db2024_main.Record.File.Valid.{IsValid, per_page, in_file, record_at}

abbrev pub rid_at : ℕ → ℕ → Rid
rid_at n i = record { page_no = pos n; slot_no = pos i }

module _ {D : Type 0} where
  -- Every record and every pin is as it was.
  pub record Unchanged (s s2 : RmFile D) : Type 0 where
    pub records : (m j : ℕ) → record_at m j s2 ≡ record_at m j s
    pub pinned : (m : ℕ) → s2.pins m ≡ s.pins m
    pub valid : IsValid s2

  -- The file after the page `n` was fetched and unpinned.
  abbrev pub visited : ℕ → RmFile D → RmFile D
  visited n s = unpin_page n (pin n s)

  pub visited-Unchanged : (n : ℕ) (s : RmFile D) → IsValid s → Unchanged s (visited n s)
  unfolding record_at
  visited-Unchanged n s v = record {
    records = λ m j. refl;
    pinned = λ m. ground arith;
    valid = record {
      free = v.free;
      positive = v.positive;
      has_header = v.has_header;
      numbered = v.numbered;
      pages = v.pages;
      chain = v.chain;
      distinct = v.distinct;
      listed = v.listed;
      room = v.room;
    };
  }

  -- A slot of a page of the file is missing exactly if it holds no record.
  pub missing-record_at :
      (n i : ℕ) (s : RmFile D)
      → in_file n s ≡ true
      → (missing n (pos i) s ≡ true → record_at n i s ≡ none)
        × (missing n (pos i) s ≡ false → record_at n i s ≡ some ((s.pages n).slots i))
  unfolding missing record_at
  missing-record_at n i s h = (λ m. ground arith, λ m. ground arith)

  get_in :
      (n i : ℕ) (s : RmFile D) (d : D)
      → in_file n s ≡ true
      → record_at n i s ≡ some d
      → get_record_in (pos i) n (pin n s) ≡ (visited n s, ok d)
  unfolding get_record_in record_at missing
  get_in n i s d h r = ground arith

  get_none :
      (n i : ℕ) (s : RmFile D)
      → in_file n s ≡ true
      → record_at n i s ≡ none
      → get_record_in (pos i) n (pin n s) ≡ (visited n s, raise record_not_found)
  unfolding get_record_in record_at missing
  get_none n i s h r = ground arith

  -- On a valid file whose buffer pool grants the page, `get_record` of a slot of the file returns
  -- the record that is there, and throws `RecordNotFoundError` if there is none; the records, the
  -- pins and the validity of the file are kept in both cases.
  pub get_record_lem :
      (n i : ℕ) (s : RmFile D)
      → IsValid s
      → in_file n s ≡ true
      → s.grants s.calls ≡ true
      → (s2 : RmFile D) × Unchanged s s2
        × ((d : D) → record_at n i s ≡ some d → get_record (rid_at n i) s ≡ (s2, ok d))
        × (record_at n i s ≡ none → get_record (rid_at n i) s ≡ (s2, raise record_not_found))
  unfolding get_record
  get_record_lem n i s v h g = (
    visited n s,
    visited-Unchanged n s v,
    λ d r. rw (fetch_page_handle-granted n s h g) (get_in n i s d h r),
    λ r. rw (fetch_page_handle-granted n s h g) (get_none n i s h r),
  )

  -- The file after a record of the page `n` is replaced.
  unfoldable pub replaced : ℕ → ℕ → D → RmFile D → RmFile D
  replaced n i buf s =
      write_to n (record (s.pages n) { slots = with_page i buf (s.pages n).slots }) s

  -- What an update guarantees: the slot holds the new record, and every other record is as it was.
  pub record Replaced (s s2 : RmFile D) (n i : ℕ) (buf : D) : Type 0 where
    pub valid : IsValid s2
    pub records :
        (m j : ℕ) → record_at m j s2 ≡ (if n == m && i == j then some buf else record_at m j s)
    pub pinned : (m : ℕ) → s2.pins m ≡ s.pins m

  replaced-Replaced :
      (n i : ℕ) (buf old : D) (s : RmFile D)
      → IsValid s
      → in_file n s ≡ true
      → record_at n i s ≡ some old
      → Replaced s (unpin_page n (replaced n i buf (pin n s))) n i buf
  unfolding record_at replaced
  replaced-Replaced n i buf old s v h r = record {
    valid = record {
      free = v.free;
      positive = v.positive;
      has_header = v.has_header;
      numbered = v.numbered;
      pages = λ m inside.
          IsPage-same (per_page s) (per_page s) (s.pages m) _ refl (ground arith) (ground arith)
            (v.pages m inside);
      chain =
          Chain-same s.pages (replaced n i buf s).pages s.hdr.first_free_page_no
            s.hdr.first_free_page_no v.free refl (λ m l. ground arith) v.chain;
      distinct = v.distinct;
      listed = λ m l. ground (arith, v.listed m l);
      room = λ m inside less. v.room m inside (ground arith);
    };
    records = λ m j. ground arith;
    pinned = λ m. ground arith;
  }

  update_in :
      (n i : ℕ) (buf old : D) (s : RmFile D)
      → in_file n s ≡ true
      → record_at n i s ≡ some old
      → update_record_in (pos i) buf n (pin n s)
        ≡ (unpin_page n (replaced n i buf (pin n s)), ok tt)
  unfolding update_record_in record_at missing replaced
  update_in n i buf old s h r = ground arith

  -- On a valid file whose buffer pool grants the page, `update_record` of a record of the file
  -- returns and replaces that record only: every other record, the pins and the validity of the
  -- file are kept.
  pub update_record-Replaced :
      (n i : ℕ) (buf old : D) (s : RmFile D)
      → IsValid s
      → in_file n s ≡ true
      → s.grants s.calls ≡ true
      → record_at n i s ≡ some old
      → (s2 : RmFile D) × (update_record (rid_at n i) buf s ≡ (s2, ok tt)) × Replaced s s2 n i buf
  unfolding update_record
  update_record-Replaced n i buf old s v h g r = (
    unpin_page n (replaced n i buf (pin n s)),
    rw (fetch_page_handle-granted n s h g) (update_in n i buf old s h r),
    replaced-Replaced n i buf old s v h r,
  )
