-- ===== src/Storage/Buffer/Delete.antt =====
-- buffer_pool_manager.cpp, `delete_page`.
use db2024_main.Common.{
  ℕ, bind_pair-eq-ok, Distinct-append_new, Option-cases, [], ap, arith, elem, elem-append,
  elem-remove_ne, elem-remove_self, false, if◌then◌else◌, inl, inr, int_eq, lookup, lookup-erase,
  none, ok, refl, some, true, ◌&&◌, ◌++◌, ◌==◌, ◌||◌, ◌∷◌, ◌≡◌, Bool, subst, sym, ◌<◌,
}
use db2024_main.Storage.Page.{
  PageId, page_id_eq, page_same, page_same_iff, is_invalid, invalid_page_id,
}
use db2024_main.Storage.Disk
use db2024_main.Replacer.{Replacer}
use db2024_main.Storage.Buffer.Invariant.{view, IsConsistent}
use db2024_main.Storage.Buffer.{Pool, update_page, delete_found, delete_page}

module _ {A : Type 0} (blank : A) (R : Replacer) where
  abbrev no_page : PageId → PageId
  no_page id = record { fd = id.fd; page_no = invalid_page_id }

  -- `s2` is `s` with the frame `f` emptied.
  record Emptied (s s2 : Pool A R.State) (f : ℕ) (id : PageId) : Type 0 where
    same_size : s2.pool_size ≡ s.pool_size
    same_free : s2.free_list ≡ s.free_list
    same_replacer : s2.replacer ≡ s.replacer
    emptied : is_invalid (s2.pages f).id ≡ true
    pages : (g : ℕ) → (f == g) ≡ false → s2.pages g ≡ s.pages g
    table :
        (k : PageId)
        → lookup k s2.page_table ≡ (if page_same id k then none else lookup k s.page_table)
    stored :
        (k : PageId)
        → s2.disk.stored k ≡ (
            if (s.pages f).is_dirty && page_same id k
            then some (s.pages f).content
            else s.disk.stored k)

  invalid_no_page : (id : PageId) → is_invalid (no_page id) ≡ true
  unfolding is_invalid int_eq
  invalid_no_page id = refl

  update_page-Emptied :
      (f : ℕ) (id : PageId) (s s2 : Pool A R.State)
      → (s.pages f).id ≡ id
      → is_invalid id ≡ false
      → update_page blank R f (no_page id) f s ≡ (s2, ok tt)
      → Emptied s s2 f id
  unfolding update_page Disk.write_page Disk.store
  update_page-Emptied f id s s2 e valid h = record {
    same_size = ground (arith, invalid_no_page id);
    same_free = ground (arith, invalid_no_page id);
    same_replacer = ground (arith, invalid_no_page id);
    emptied = ground (arith, invalid_no_page id);
    pages = λ g ne. ground (arith, invalid_no_page id);
    table = λ k. ground (arith, invalid_no_page id, lookup-erase id k s.page_table);
    stored = λ k. ground (arith, invalid_no_page id);
  }

  -- The frame is empty, out of the replacer and in the free list.
  record Deleted (s s2 : Pool A R.State) (f : ℕ) (id : PageId) : Type 0 where
    base : Pool A R.State
    emptied : Emptied (record s { replacer = R.pin f s.replacer }) base f id
    result : s2 ≡ record base { free_list = base.free_list ++ f ∷ [] }

  module _ (f : ℕ) (id : PageId) (s s2 : Pool A R.State) (c : IsConsistent R s)
      (d : Deleted s s2 f id) (found : lookup id s.page_table ≡ some f)
      (idle : (s.pages f).pin_count ≡ 0) where
    open d use {base, emptied, result}

    out : Pool A R.State
    out = record base { free_list = base.free_list ++ f ∷ [] }

    not_free : elem f s.free_list ≡ false
    not_free = ground (arith, c.table_frame id f found, c.free_frame f)

    elem-free : (g : ℕ) → elem g out.free_list ≡ ((f == g) || elem g s.free_list)
    unfolding out elem
    elem-free g = rw (emptied.same_free, elem-append g s.free_list (f ∷ [])) (ground arith)

    order-out :
        (g : ℕ)
        → elem g (R.order out.replacer) ≡ (if f == g then false else elem g (R.order s.replacer))
    unfolding out
    order-out g =
        let p = R.pin_order s.replacer f c.replacer_valid in
        let distinct = R.order_distinct s.replacer c.replacer_valid in
        rw (emptied.same_replacer, p.0)
          (ground (
            arith,
            elem-remove_ne g f (R.order s.replacer),
            elem-remove_self f (R.order s.replacer) distinct,
          ))

    out-IsConsistent : IsConsistent R out
    unfolding out
    out-IsConsistent =
        let p = R.pin_order s.replacer f c.replacer_valid in
        record {
          table_frame = λ k g h. ground (
            arith,
            emptied.table k,
            emptied.pages g,
            emptied.same_size,
            c.table_frame k g,
            c.table_frame id f found,
            page_same_iff id k,
          );
          frame_table = λ g lt h. ground (
            arith,
            emptied.table (s.pages g).id,
            emptied.pages g,
            emptied.emptied,
            emptied.same_size,
            c.frame_table g,
            page_same_iff id (s.pages g).id,
          );
          free_frame = λ g h. ground (
            arith,
            elem-free g,
            emptied.pages g,
            emptied.emptied,
            emptied.same_size,
            c.free_frame g,
            c.table_frame id f found,
          );
          idle_free = λ g lt h.
              ground (arith, elem-free g, emptied.pages g, emptied.same_size, c.idle_free g);
          free_distinct =
              rw emptied.same_free (Distinct-append_new f s.free_list c.free_distinct not_free);
          queued_frame = λ g h.
              ground (arith, order-out g, emptied.pages g, emptied.same_size, c.queued_frame g);
          unpinned_queued = λ g lt h z. ground (
            arith,
            order-out g,
            emptied.pages g,
            emptied.emptied,
            emptied.same_size,
            c.unpinned_queued g,
          );
          replacer_valid = rw emptied.same_replacer p.1;
          replacer_fits =
              omega (
                arith,
                p.2,
                emptied.same_size,
                ap R.max_size emptied.same_replacer,
                c.replacer_fits,
              );
          clean_stored = λ g lt h z e. ground (
            arith,
            emptied.stored (s.pages g).id,
            emptied.pages g,
            emptied.emptied,
            emptied.same_size,
            c.clean_stored g,
            c.frame_table g,
            page_same_iff id (s.pages g).id,
          );
        }

    view-out : (k : PageId) → view k out ≡ view k s
    unfolding view out
    view-out k = elim (Option-cases (lookup k s.page_table)) [
      | inl miss ↦ ground (arith, emptied.table k, emptied.stored k, page_same_iff id k)
      | inr (g, hit) ↦ ground (
        arith,
        emptied.table k,
        emptied.stored k,
        emptied.pages g,
        page_same_iff id k,
        c.table_frame k g hit,
        c.clean_stored f,
        c.table_frame id f found,
      )
    ]

  delete_found-Deleted :
      (f : ℕ) (id : PageId) (s s2 : Pool A R.State) (b : Bool)
      → IsConsistent R s
      → lookup id s.page_table ≡ some f
      → (s.pages f).pin_count ≡ 0
      → delete_found blank R (some f) id s ≡ (s2, ok b)
      → (b ≡ true) × Deleted s s2 f id
  unfolding delete_found
  delete_found-Deleted f id s s2 b c found idle h =
      let (same, valid, lt) = c.table_frame id f found in
      let s1 : Pool A R.State = record s { replacer = R.pin f s.replacer } in
      let zero_pin : ((s.pages f).pin_count == 0) ≡ true = ground arith in
      let (base, u, updated, h2) =
        bind_pair-eq-ok (update_page blank R f (no_page id) f s1) _ (rw zero_pin at h) in
      (
        cc (h2),
        record {
          base = base;
          emptied = update_page-Emptied f id s1 base same valid updated;
          result = cc (h2);
        },
      )

  -- On a consistent pool, `delete_page` of a cached page that nobody pins, when it returns, takes
  -- the page out of the pool and frees its frame; the pool stays consistent, and every page keeps
  -- its content, since a dirty page is written back.
  pub delete_page-unpinned :
      (f : ℕ) (id : PageId) (s s2 : Pool A R.State) (b : Bool)
      → IsConsistent R s
      → lookup id s.page_table ≡ some f
      → (s.pages f).pin_count ≡ 0
      → delete_page blank R id s ≡ (s2, ok b)
      → (b ≡ true)
        × IsConsistent R s2
        × ((k : PageId) → view k s2 ≡ view k s)
        × (lookup id s2.page_table ≡ none)
        × (elem f s2.free_list ≡ true)
  unfolding delete_page out
  delete_page-unpinned f id s s2 b c found idle h =
      let (done, d) = delete_found-Deleted f id s s2 b c found idle (rw found at h) in
      let e : out f id s s2 c d found idle ≡ s2 = sym d.result in
      (
        done,
        subst (IsConsistent R) e (out-IsConsistent f id s s2 c d found idle),
        λ k. rw d.result (view-out f id s s2 c d found idle k),
        subst (λ x. lookup id x.page_table ≡ none) e
            (ground (arith, d.emptied.table id, page_same_iff id id)),
        subst (λ x. elem f x.free_list ≡ true) e
            (ground (arith, elem-free f id s s2 c d found idle f)),
      )

  -- `delete_page` refuses a pinned page, and accepts a page that is not cached; both change nothing.
  delete_page-unchanged :
      (id : PageId) (s : Pool A R.State)
      → (lookup id s.page_table ≡ none → delete_page blank R id s ≡ (s, ok true))
        × ((f : ℕ)
            → lookup id s.page_table ≡ some f
            → 0 < (s.pages f).pin_count
            → delete_page blank R id s ≡ (s, ok false))
  unfolding delete_page delete_found
  delete_page-unchanged id s = (
    λ miss. rw (miss, delete_found),
    λ f hit pinned.
        let busy : ((s.pages f).pin_count == 0) ≡ false = ground arith in
        rw (hit, delete_found, busy),
  )
