-- ===== src/Storage/Buffer/ReadFailure.antt =====
-- What is left of the pool when the read in `fetch_page` throws.
use db2024_main.Common.{
  ℕ, List, internal_error, lookup, none, ok, pos, raise, some, ◌∷◌, ◌≡◌, arith, beq_refl, elem,
  false, insert, int_eq, lookup-insert, refl, true, ◌<◌,
}
use db2024_main.Storage.Page.{PageId, page_id_eq, is_invalid}
use db2024_main.Storage.Disk
use db2024_main.Replacer.{Replacer}
use db2024_main.Storage.Buffer.Invariant.{IsConsistent}
use db2024_main.Storage.Buffer.{Pool, put, pop_free, fetch_found, fetch_page}

module _ {A : Type 0} (blank : A) (R : Replacer) where
  -- The pool after the throw.
  failed : PageId → ℕ → List ℕ → Pool A R.State → Pool A R.State
  failed id f rest s = record s {
    pages = put f (record { id = id; content = blank; is_dirty = false; pin_count = 0 }) s.pages;
    page_table = insert id f s.page_table;
    free_list = rest;
  }

  module _ (id : PageId) (s : Pool A R.State) (f : ℕ) (rest : List ℕ) (n : ℕ) (c : IsConsistent R s)
      (e : id.page_no ≡ pos n) (absent : lookup id s.page_table ≡ none)
      (short : s.disk.stored id ≡ none) (free : s.free_list ≡ f ∷ rest) where
    was_free : (is_invalid (s.pages f).id ≡ true) × (f < s.pool_size)
    unfolding elem
    was_free = c.free_frame f (rw free (ground arith))

    valid : is_invalid id ≡ false
    unfolding is_invalid int_eq
    valid = rw e

    fetch_page-failed : fetch_page blank R id s ≡ (failed id f rest s, raise internal_error)
    unfolding fetch_page Disk.read_page failed
    fetch_page-failed = rw (absent, fetch_found, free, pop_free) (ground (arith, was_free, valid))

    refetch : (fetch_page blank R id (failed id f rest s)).1 ≡ ok (some f)
    unfolding fetch_page failed
    refetch = rw (lookup-insert, beq_refl id, fetch_found)

    refetched : ((fetch_page blank R id (failed id f rest s)).0.pages f).content ≡ blank
    unfolding fetch_page failed
    refetched = rw (lookup-insert, beq_refl id, fetch_found) (ground arith)

    failed-not-IsConsistent : ¬ IsConsistent R (failed id f rest s)
    unfolding failed
    failed-not-IsConsistent d =
        ground (arith, was_free, valid, d.unpinned_queued f, c.queued_frame f)

  -- On a consistent pool with a free frame, a fetch of a page that is neither cached nor on disk
  -- throws; a second fetch of the page then returns a blank page in that frame, and the pool that
  -- the throw leaves is not consistent.
  pub fetch_page-leak :
      (id : PageId) (s : Pool A R.State) (f : ℕ) (rest : List ℕ) (n : ℕ)
      → IsConsistent R s
      → id.page_no ≡ pos n
      → lookup id s.page_table ≡ none
      → s.disk.stored id ≡ none
      → s.free_list ≡ f ∷ rest
      → ((fetch_page blank R id s).1 ≡ raise internal_error)
        × ((fetch_page blank R id (fetch_page blank R id s).0).1 ≡ ok (some f))
        × (((fetch_page blank R id (fetch_page blank R id s).0).0.pages f).content ≡ blank)
        × (¬ IsConsistent R (fetch_page blank R id s).0)
  fetch_page-leak id s f rest n c e absent short free =
      rw (fetch_page-failed id s f rest n c e absent short free) (
        refl,
        refetch id s f rest n c e absent short free,
        refetched id s f rest n c e absent short free,
        failed-not-IsConsistent id s f rest n c e absent short free,
      )
