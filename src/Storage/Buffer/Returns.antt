-- ===== src/Storage/Buffer/Returns.antt =====
-- When `fetch_page` returns a page.
use db2024_main.Common.{
  ℕ, Option-cases, false, inl, inr, lookup, ok, some, true, ◌<◌, ◌≡◌, Bool-cases, arith,
  if◌then◌else◌, refl,
}
use db2024_main.Storage.Page.{PageId, page_id_eq, page_same, is_invalid}
use db2024_main.Storage.Disk
use db2024_main.Storage.Disk.{Disk, seek_fails}
use db2024_main.Replacer.{Replacer}
use db2024_main.Storage.Buffer.Invariant.{IsConsistent}
use db2024_main.Storage.Buffer.Load.{find_victim_page-Taken, same_disk-find_victim_page}
use db2024_main.Storage.Buffer.Exhausted.{AllPinned, find_victim_page-none}
use db2024_main.Storage.Buffer.{
  Pool, disk_write, disk_read, find_victim_page, write_back, install, update_page, fetch_into,
  fetch_found, fetch_page,
}

module _ {A : Type 0} (blank : A) (R : Replacer) where
  -- The disk takes every page that the pool may have to write back.
  abbrev pub Writable : Pool A R.State → Type 0
  Writable s =
      (f : ℕ)
      → f < s.pool_size
      → is_invalid (s.pages f).id ≡ false
      → (seek_fails (s.pages f).id ≡ false) × (s.disk.writable (s.pages f).id ≡ true)

  -- A write-back keeps every page that the disk has, and can be done.
  write_back-returns :
      (f : ℕ) (s : Pool A R.State)
      → (is_invalid (s.pages f).id ≡ false
          → (seek_fails (s.pages f).id ≡ false) × (s.disk.writable (s.pages f).id ≡ true))
      → (id : PageId) (a : A) → s.disk.stored id ≡ some a
      → (s1 : Pool A R.State) × (b : A) × (write_back blank R f s ≡ (s1, ok tt))
        × (s1.disk.stored id ≡ some b)
  unfolding write_back disk_write Disk.write_page Disk.store
  write_back-returns f s w id a stored =
      let s1 = (write_back blank R f s).0 in
      elim (Bool-cases (is_invalid (s.pages f).id)) [
        | inl empty ↦ (s1, a, rw empty refl, rw empty stored)
        | inr full ↦ elim (Bool-cases (s.pages f).is_dirty) [
          | inl dirty ↦ (
            s1,
            if page_same (s.pages f).id id then (s.pages f).content else a,
            rw (full, dirty, (w full).0, (w full).1) refl,
            rw (full, dirty, (w full).0, (w full).1) (ground (arith, stored)),
          )
          | inr clean ↦ (s1, a, rw (full, clean) refl, rw (full, clean) stored)
        ]
      ]

  load-returns :
      (f : ℕ) (s : Pool A R.State)
      → (is_invalid (s.pages f).id ≡ false
          → (seek_fails (s.pages f).id ≡ false) × (s.disk.writable (s.pages f).id ≡ true))
      → (id : PageId) (a : A) → s.disk.stored id ≡ some a
      → seek_fails id ≡ false
      → (s2 : Pool A R.State) × (fetch_into blank R (some f) id s ≡ (s2, ok (some f)))
  unfolding fetch_into update_page disk_read Disk.read_page install
  load-returns f s w id a stored valid =
      let (s1, b, written, kept) = write_back-returns f s w id a stored in
      ((fetch_into blank R (some f) id s).0, rw (written, valid, kept) refl)

  -- On a consistent pool with a frame that is not pinned, `fetch_page` of a page that the disk has
  -- returns a frame, if the disk takes the pages that the pool may have to write back.
  pub fetch_page-returns :
      (id : PageId) (s : Pool A R.State) (a : A)
      → IsConsistent R s
      → ¬ AllPinned blank R s
      → Writable s
      → seek_fails id ≡ false
      → s.disk.stored id ≡ some a
      → (s2 : Pool A R.State) × (f : ℕ) × (fetch_page blank R id s ≡ (s2, ok (some f)))
  unfolding fetch_page fetch_found
  fetch_page-returns id s a c idle w valid stored = elim (Option-cases (lookup id s.page_table)) [
    | inr (f, hit) ↦ ((fetch_page blank R id s).0, f, rw hit refl)
    | inl miss ↦ elim (Option-cases (find_victim_page blank R s).1) [
      | inl lost ↦ absurd (idle (find_victim_page-none blank R s c lost).0)
      | inr (f, won) ↦
          let t = find_victim_page-Taken blank R s c f won in
          let disk = same_disk-find_victim_page blank R s c in
          let (s2, returned) =
            load-returns f (find_victim_page blank R s).0 (rw (t.same_pages, disk) (w f t.in_range))
              id a (rw t.same_stored stored) valid in
          (s2, f, rw (miss, won) returned)
    ]
  ]
