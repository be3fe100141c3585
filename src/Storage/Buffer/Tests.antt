-- ===== src/Storage/Buffer/Tests.antt =====
-- A pool of one frame over a disk with pages of a single number.
use db2024_main.Common.{
  ℕ, arith, if◌then◌else◌, none, ok, pos, refl, some, true, ◌≡◌, [], elem, false, int_eq,
  internal_error, lookup, raise, ◌+◌, ◌<◌, ◌||◌, ◌↔◌, ◌∷◌, insert,
}
use db2024_main.Storage.Page.{PageId, page_id_eq, page_same, is_invalid}
use db2024_main.Storage.Disk
use db2024_main.Storage.Disk.{Disk}
use db2024_main.Replacer.Lru
use db2024_main.Replacer.Lru.{LruReplacer}
use db2024_main.Replacer.Lru.Order.{lru, new-IsValid}
use db2024_main.Storage.Buffer.{
  Pool, new, fetch_page, unpin_page, new_page, delete_page, flush_all_pages,
}
use db2024_main.Storage.Buffer.Invariant.{view, IsConsistent}
use db2024_main.Storage.Buffer.Fetch.{Fetched, fetch_page-Fetched}
use db2024_main.Storage.Buffer.Unpin.{Honest, unpin_page-pinned}
use db2024_main.Storage.Buffer.Exhausted.{AllPinned, fetch_page-null_iff}
use db2024_main.Storage.Buffer.NewPage.{next_id, Created, new_page-Created}
use db2024_main.Storage.Buffer.Flush.{Entries, flush_all_pages-OnDisk}
use db2024_main.Storage.Buffer.Delete.{delete_page-unpinned}
use db2024_main.Storage.Buffer.ReadFailure.{fetch_page-leak}
use db2024_main.Storage.Buffer.Start.{new-IsConsistent}
use db2024_main.Storage.Buffer.Returns.{Writable, fetch_page-returns}
use db2024_main.Storage.Disk.{seek_fails}

abbrev page_at : ℕ → PageId
page_at n = record { fd = 1; page_no = pos n }

-- A file with the pages 0 and 1.
abbrev disk : Disk ℕ
disk = record {
  stored = λ id.
      if page_same id (page_at 0)
      then some 10
      else if page_same id (page_at 1)
      then some 11
      else none;
  writable = λ id. true;
  torn = λ id a. none;
  fd2pageno = λ fd. 2;
}

abbrev pool : Pool ℕ LruReplacer
pool = new 0 lru 1 disk (Lru.new 1)

abbrev fetched_pool : Pool ℕ LruReplacer
fetched_pool = (fetch_page 0 lru (page_at 1) pool).0

pool-IsConsistent : IsConsistent lru pool
unfolding Lru.new
pool-IsConsistent =
    (new-IsConsistent 0 lru 1 disk (Lru.new 1) (new-IsValid 1).0 (new-IsValid 1).1 (omega arith)).0

fetches : fetch_page 0 lru (page_at 1) pool ≡ (fetched_pool, ok (some 0))
unfolding fetch_page new lookup is_invalid int_eq Disk.read_page page_same
fetches = refl

fetched : Fetched 0 lru pool fetched_pool 0 (page_at 1)
fetched = fetch_page-Fetched 0 lru (page_at 1) pool fetched_pool 0 pool-IsConsistent fetches

fetch_page-Fetched_example : Fetched 0 lru pool fetched_pool 0 (page_at 1)
fetch_page-Fetched_example =
    fetch_page-Fetched 0 lru (page_at 1) pool fetched_pool 0 pool-IsConsistent fetches

cached : lookup (page_at 1) fetched_pool.page_table ≡ some 0
unfolding fetch_page new lookup is_invalid int_eq Disk.read_page page_same insert
cached = refl

one_pin : 0 < (fetched_pool.pages 0).pin_count
unfolding fetch_page new lookup is_invalid int_eq Disk.read_page page_same
one_pin = omega arith

on_disk : Honest 0 lru 0 false fetched_pool
unfolding fetch_page new lookup is_invalid int_eq Disk.read_page page_same
on_disk = λ a b c. refl

abbrev idle_pool : Pool ℕ LruReplacer
idle_pool = (unpin_page 0 lru (page_at 1) false fetched_pool).0

unpin_page-pinned_example :
    ((unpin_page 0 lru (page_at 1) false fetched_pool).1 ≡ true)
    × IsConsistent lru idle_pool
    × ((k : PageId) → view k idle_pool ≡ view k fetched_pool)
    × ((idle_pool.pages 0).pin_count + 1 ≡ (fetched_pool.pages 0).pin_count)
    × ((idle_pool.pages 0).is_dirty ≡ ((fetched_pool.pages 0).is_dirty || false))
unpin_page-pinned_example =
    unpin_page-pinned 0 lru (page_at 1) false fetched_pool 0 (fetched.consistent) cached one_pin
      on_disk

fetch_page-null_iff_example :
    (((fetch_page 0 lru (page_at 0) fetched_pool).1 ≡ ok none)
      ↔ ((lookup (page_at 0) fetched_pool.page_table ≡ none) × AllPinned 0 lru fetched_pool))
    × ((fetch_page 0 lru (page_at 0) fetched_pool).1 ≡ ok none
        → fetch_page 0 lru (page_at 0) fetched_pool ≡ (fetched_pool, ok none))
fetch_page-null_iff_example =
    fetch_page-null_iff 0 lru (page_at 0) fetched_pool (fetched.consistent)

abbrev grown_pool : Pool ℕ LruReplacer
grown_pool = (new_page 0 lru 1 pool).0

absent : lookup (next_id 0 lru 1 pool) pool.page_table ≡ none
unfolding new lookup
absent = refl

creates : new_page 0 lru 1 pool ≡ (grown_pool, ok (some (page_at 2, 0)))
unfolding new_page new lookup is_invalid int_eq page_same Disk.allocate_page
creates = refl

new_page-Created_example : Created 0 lru pool grown_pool 0 1 (page_at 2)
new_page-Created_example =
    new_page-Created 0 lru 1 pool grown_pool (page_at 2) 0 pool-IsConsistent absent creates

abbrev all_flushed : Pool ℕ LruReplacer
all_flushed = (flush_all_pages 0 lru 1 fetched_pool).0

flushes_all : flush_all_pages 0 lru 1 fetched_pool ≡ (all_flushed, ok tt)
unfolding flush_all_pages fetch_page new lookup is_invalid int_eq Disk.read_page page_same insert
    Disk.write_page
flushes_all = refl

entries : Entries 0 lru fetched_pool.page_table fetched_pool
unfolding fetch_page new lookup is_invalid int_eq Disk.read_page page_same insert
entries = (refl, tt)

flush_all_pages-OnDisk_example :
    IsConsistent lru all_flushed
    × ((k : PageId) → view k all_flushed ≡ view k fetched_pool)
    × ((id : PageId) (f : ℕ)
        → lookup id fetched_pool.page_table ≡ some f
        → id.fd ≡ 1
        → all_flushed.disk.stored id ≡ view id fetched_pool)
flush_all_pages-OnDisk_example =
    flush_all_pages-OnDisk 0 lru 1 fetched_pool all_flushed (fetched.consistent) entries flushes_all

idle-IsConsistent : IsConsistent lru idle_pool
idle-IsConsistent = unpin_page-pinned_example.1

abbrev deleted_pool : Pool ℕ LruReplacer
deleted_pool = (delete_page 0 lru (page_at 1) idle_pool).0

idle_cached :
    (lookup (page_at 1) idle_pool.page_table ≡ some 0) × ((idle_pool.pages 0).pin_count ≡ 0)
unfolding unpin_page fetch_page new lookup is_invalid int_eq Disk.read_page page_same insert
idle_cached = (refl, refl)

deletes : delete_page 0 lru (page_at 1) idle_pool ≡ (deleted_pool, ok true)
unfolding delete_page unpin_page fetch_page new lookup is_invalid int_eq Disk.read_page page_same
    insert
deletes = refl

delete_page-unpinned_example :
    (true ≡ true)
    × IsConsistent lru deleted_pool
    × ((k : PageId) → view k deleted_pool ≡ view k idle_pool)
    × (lookup (page_at 1) deleted_pool.page_table ≡ none)
    × (elem 0 deleted_pool.free_list ≡ true)
delete_page-unpinned_example =
    delete_page-unpinned 0 lru 0 (page_at 1) idle_pool deleted_pool true idle-IsConsistent
      idle_cached.0 idle_cached.1 deletes

no_page :
    (lookup (page_at 7) pool.page_table ≡ none)
    × (pool.disk.stored (page_at 7) ≡ none)
    × (pool.free_list ≡ 0 ∷ [])
unfolding new lookup page_same int_eq
no_page = (refl, refl, refl)

fetch_page-leak_example :
    ((fetch_page 0 lru (page_at 7) pool).1 ≡ raise internal_error)
    × ((fetch_page 0 lru (page_at 7) (fetch_page 0 lru (page_at 7) pool).0).1 ≡ ok (some 0))
    × (((fetch_page 0 lru (page_at 7) (fetch_page 0 lru (page_at 7) pool).0).0.pages 0).content ≡ 0)
    × (¬ IsConsistent lru (fetch_page 0 lru (page_at 7) pool).0)
fetch_page-leak_example =
    fetch_page-leak 0 lru (page_at 7) pool 0 [] 7 pool-IsConsistent refl no_page.0 no_page.1
      no_page.2

new-IsConsistent_example : IsConsistent lru pool × ((k : PageId) → view k pool ≡ disk.stored k)
unfolding Lru.new
new-IsConsistent_example =
    new-IsConsistent 0 lru 1 disk (Lru.new 1) (new-IsValid 1).0 (new-IsValid 1).1 (omega arith)

not-AllPinned : ¬ AllPinned 0 lru pool
unfolding new is_invalid int_eq
not-AllPinned all = let h = (all 0 (omega arith)).0 in cc (h)

nothing_to_write : Writable 0 lru pool
unfolding new is_invalid int_eq
nothing_to_write f lt valid = cc (valid)

fetch_page-returns_example :
    (s2 : Pool ℕ LruReplacer) × (f : ℕ) × (fetch_page 0 lru (page_at 1) pool ≡ (s2, ok (some f)))
unfolding seek_fails page_same new int_eq
fetch_page-returns_example =
    fetch_page-returns 0 lru (page_at 1) pool 11 pool-IsConsistent not-AllPinned nothing_to_write
      refl refl
