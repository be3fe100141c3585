-- ===== src/Storage/Buffer.antt =====
-- storage/buffer_pool_manager.h and .cpp, over the content of a page (`blank` is a page of zeros,
-- what `reset_memory` leaves) and over the replacer. A frame is its index in `pages_`; the result
-- `none` is the null pointer. The latch makes every operation one step. `pin_count_` never goes
-- below 0, since `unpin_page` tests it, so it is a natural number.
pub mod Invariant
pub mod Replace
pub mod Load
pub mod Fetch
pub mod Unpin
pub mod Exhausted
pub mod Returns
pub mod NewPage
pub mod Flush
pub mod Delete
pub mod ReadFailure
pub mod Start
mod Tests
use db2024_main.Common.{
  ◌>>=◌, ◌>>◌, ℕ, zero, suc, ◌+◌, ◌-◌, Bool, true, false, not, ◌||◌, ◌&&◌, Option, none, some, List,
  [], ◌∷◌, ◌++◌, pos, if◌then◌else◌, ◌==◌, leb, ok, M, bind_pair, lookup, insert, erase, pure,
  modify,
}
use db2024_main.Storage.Page.{PageId, page_id_eq, Page, is_invalid, invalid_page_id}
use db2024_main.Storage.Disk
use db2024_main.Storage.Disk.{Disk}
use db2024_main.Replacer.{Replacer}

pub record Pool (A : Type 0) (State : Type 0) : Type 0 where
  pub pool_size : ℕ
  pub pages : ℕ → Page A
  pub page_table : List (PageId × ℕ)
  pub free_list : List ℕ
  pub disk : Disk A
  pub replacer : State

abbrev pub put : {A : Type 0} → ℕ → Page A → (ℕ → Page A) → ℕ → Page A
put f page pages g = if f == g then page else pages g

-- `i, i + 1, …`, as many as the first argument says.
unfoldable pub frames_from : ℕ → ℕ → List ℕ
frames_from zero i = []
frames_from (suc n) i = i ∷ frames_from n (i + 1)

module _ {A : Type 0} (blank : A) (R : Replacer) where
  abbrev pub PoolOf : Type 0
  PoolOf = Pool A R.State

  -- The constructor. `new Page[…]` leaves `fd` as it is, here 0.
  unfoldable pub new : ℕ → Disk A → R.State → PoolOf
  unfolding frames_from
  new pool_size disk replacer = record {
    pool_size = pool_size;
    pages = λ f. record {
      id = record { fd = 0; page_no = invalid_page_id };
      content = blank;
      is_dirty = false;
      pin_count = 0;
    };
    page_table = [];
    free_list = frames_from pool_size 0;
    disk = disk;
    replacer = replacer;
  }

  -- Calls of the disk manager.
  unfoldable pub disk_write : PageId → A → M PoolOf (Unit {0})
  disk_write id a s = let (d, r) = Disk.write_page id a s.disk in (record s { disk = d }, r)

  unfoldable pub disk_read : PageId → M PoolOf A
  disk_read id s = let (d, r) = Disk.read_page id s.disk in (record s { disk = d }, r)

  unfoldable pub disk_allocate : ℕ → M PoolOf ℕ
  disk_allocate fd s = let (d, r) = Disk.allocate_page fd s.disk in (record s { disk = d }, r)

  unfoldable pub pop_free : List ℕ → PoolOf → PoolOf × Option ℕ
  pop_free [] s = let (r, v) = R.victim s.replacer in (record s { replacer = r }, v)
  pop_free (f ∷ rest) s = (record s { free_list = rest }, some f)

  unfoldable pub find_victim_page : PoolOf → PoolOf × Option ℕ
  unfolding pop_free
  find_victim_page s = pop_free s.free_list s

  -- The part of `update_page` before `reset_memory`.
  unfoldable pub write_back : ℕ → M PoolOf (Unit {0})
  unfolding disk_write
  write_back page s =
      let p = s.pages page in
      let forget : M PoolOf (Unit {0}) =
        modify (λ t. record t { page_table = erase p.id t.page_table }) in
      if is_invalid p.id
      then (s, ok tt)
      else if p.is_dirty
      then bind_pair (disk_write p.id p.content s) (λ _. forget)
      else forget s

  -- The part of `update_page` from `reset_memory` on.
  unfoldable pub install : ℕ → PageId → ℕ → PoolOf → PoolOf
  install page new_page_id new_frame_id s = record s {
    pages =
        put page (record { id = new_page_id; content = blank; is_dirty = false; pin_count = 0 })
          s.pages;
    page_table =
        if is_invalid new_page_id
        then s.page_table
        else insert new_page_id new_frame_id s.page_table;
  }

  unfoldable pub update_page : ℕ → PageId → ℕ → M PoolOf (Unit {0})
  unfolding write_back install
  update_page page new_page_id new_frame_id = do
    write_back page
    modify (install page new_page_id new_frame_id)

  -- `page->pin_count_ = 1`, `page->is_dirty_ = false` and `replacer_->pin`, after a read into the
  -- frame if there is one.
  unfoldable pub pin_first : ℕ → A → PoolOf → PoolOf
  pin_first f a s = record s {
    pages = put f (record (s.pages f) { content = a; is_dirty = false; pin_count = 1 }) s.pages;
    replacer = R.pin f s.replacer;
  }

  unfoldable pub fetch_into : Option ℕ → PageId → M PoolOf (Option ℕ)
  unfolding update_page disk_read pin_first
  fetch_into none page_id = pure none
  fetch_into (some f) page_id = do
    update_page f page_id f
    a ← disk_read page_id
    modify (pin_first f a)
    pure (some f)

  unfoldable pub fetch_found : Option ℕ → PageId → M PoolOf (Option ℕ)
  unfolding fetch_into find_victim_page
  fetch_found (some f) page_id s =
      let p = s.pages f in
      (
        record s {
          pages = put f (record p { pin_count = p.pin_count + 1 }) s.pages;
          replacer = R.pin f s.replacer;
        },
        ok (some f),
      )
  fetch_found none page_id s = let (s1, v) = find_victim_page s in fetch_into v page_id s1

  unfoldable pub fetch_page : PageId → M PoolOf (Option ℕ)
  unfolding fetch_found
  fetch_page page_id s = fetch_found (lookup page_id s.page_table) page_id s

  unfoldable pub unpin_frame : ℕ → Bool → PoolOf → PoolOf
  unpin_frame f is_dirty s =
      let p = s.pages f in
      let count = p.pin_count - 1 in
      record s {
        pages = put f (record p { is_dirty = p.is_dirty || is_dirty; pin_count = count }) s.pages;
        replacer = if count == 0 then R.unpin f s.replacer else s.replacer;
      }

  unfoldable pub unpin_found : Option ℕ → Bool → PoolOf → PoolOf × Bool
  unfolding unpin_frame
  unpin_found none is_dirty s = (s, false)
  unpin_found (some f) is_dirty s =
      if leb (s.pages f).pin_count 0 then (s, false) else (unpin_frame f is_dirty s, true)

  unfoldable pub unpin_page : PageId → Bool → PoolOf → PoolOf × Bool
  unfolding unpin_found
  unpin_page page_id is_dirty s = unpin_found (lookup page_id s.page_table) is_dirty s

  -- `write_page` of a frame's content under the given id, and `is_dirty_ = false`.
  unfoldable pub flush_frame : PageId → ℕ → M PoolOf (Unit {0})
  unfolding disk_write
  flush_frame page_id f s = bind_pair (disk_write page_id (s.pages f).content s) (λ _.
      modify (λ t. record t { pages = put f (record (t.pages f) { is_dirty = false }) t.pages }))

  unfoldable pub flush_found : Option ℕ → PageId → M PoolOf Bool
  unfolding flush_frame
  flush_found none page_id = pure false
  flush_found (some f) page_id = do flush_frame page_id f; pure true

  unfoldable pub flush_page : PageId → M PoolOf Bool
  unfolding flush_found
  flush_page page_id s = flush_found (lookup page_id s.page_table) page_id s

  unfoldable pub new_into : Option ℕ → ℕ → M PoolOf (Option (PageId × ℕ))
  unfolding disk_allocate update_page pin_first
  new_into none fd = pure none
  new_into (some f) fd = do
    page_no ← disk_allocate fd
    let page_id : PageId = record { fd = fd; page_no = pos page_no }
    update_page f page_id f
    modify (pin_first f blank)
    pure (some (page_id, f))

  unfoldable pub new_page : ℕ → M PoolOf (Option (PageId × ℕ))
  unfolding find_victim_page new_into
  new_page fd s = let (s1, v) = find_victim_page s in new_into v fd s1

  unfoldable pub delete_found : Option ℕ → PageId → M PoolOf Bool
  unfolding update_page
  delete_found none page_id s = (s, ok true)
  delete_found (some f) page_id s =
      if not ((s.pages f).pin_count == 0)
      then (s, ok false)
      else bind_pair
          (update_page f (record { fd = page_id.fd; page_no = invalid_page_id }) f
            (record s { replacer = R.pin f s.replacer }))
          (λ _ t. (record t { free_list = t.free_list ++ f ∷ [] }, ok true))

  unfoldable pub delete_page : PageId → M PoolOf Bool
  unfolding delete_found
  delete_page page_id s = delete_found (lookup page_id s.page_table) page_id s

  -- The loop over `page_table_`.
  unfoldable pub flush_entries : ℕ → List (PageId × ℕ) → M PoolOf (Unit {0})
  unfolding flush_frame
  flush_entries fd [] = pure tt
  flush_entries fd ((page_id, f) ∷ entries) = do
    let rest = flush_entries fd entries
    if page_id.fd == fd && not (is_invalid page_id) then flush_frame page_id f else pure tt
    rest

  unfoldable pub flush_all_pages : ℕ → M PoolOf (Unit {0})
  unfolding flush_entries
  flush_all_pages fd s = flush_entries fd s.page_table s

  abbrev pub mark_dirty : ℕ → PoolOf → PoolOf
  mark_dirty f s = record s { pages = put f (record (s.pages f) { is_dirty = true }) s.pages }
