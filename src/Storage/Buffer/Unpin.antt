-- ===== src/Storage/Buffer/Unpin.antt =====
-- buffer_pool_manager.cpp, `unpin_page`.
use db2024_main.Common.{
  ℕ, Bool, Bool-cases, List, Option-cases, [], arith, elem, elem-append, false, if◌then◌else◌, inl,
  inr, leb, length, lookup, lt→ltb, refl, some, true, ◌+◌, ◌-◌, ◌<◌, ◌==◌, ◌||◌, ◌∷◌, ◌≡◌,
}
use db2024_main.Storage.Page.{PageId, page_id_eq, is_invalid}
use db2024_main.Replacer.{Replacer, queue_unpin}
use db2024_main.Storage.Buffer.Invariant.{view, IsConsistent, length-le_of_below}
use db2024_main.Storage.Buffer.{Pool, unpin_frame, unpin_found, unpin_page}

module _ {A : Type 0} (blank : A) (R : Replacer) where
  -- There is always room for another frame in the replacer.
  room :
      (f : ℕ) (s : Pool A R.State)
      → IsConsistent R s
      → f < s.pool_size
      → elem f (R.order s.replacer) ≡ false
      → length (R.order s.replacer) < R.max_size s.replacer
  unfolding elem
  room f s c lt out =
      let distinct = R.order_distinct s.replacer c.replacer_valid in
      let fits =
        length-le_of_below s.pool_size (f ∷ R.order s.replacer) (out, distinct)
          (λ a m. ground (arith, c.queued_frame a)) in
      omega (arith, fits, c.replacer_fits)

  elem-queue_unpin :
      (n f g : ℕ) (xs : List ℕ)
      → (elem f xs ≡ false → length xs < n)
      → elem g (queue_unpin n f xs) ≡ ((f == g) || elem g xs)
  unfolding elem
  elem-queue_unpin n f g xs h = elim (Bool-cases (elem f xs)) [
    | inl old ↦ rw old (ground arith)
    | inr new ↦ rw (new, lt→ltb (length xs) n (h new), elem-append g xs (f ∷ [])) (ground arith)
  ]

  -- The part of the contract of `unpin_page` that the caller keeps: at the last unpin a page that
  -- is not marked dirty is as it is on disk.
  abbrev pub Honest : ℕ → Bool → Pool A R.State → Type 0
  Honest f is_dirty s =
      (s.pages f).pin_count ≡ 1
      → (s.pages f).is_dirty ≡ false
      → is_dirty ≡ false
      → s.disk.stored (s.pages f).id ≡ some (s.pages f).content

  module _ (f : ℕ) (is_dirty : Bool) (s : Pool A R.State) (c : IsConsistent R s)
      (lt : f < s.pool_size) (valid : is_invalid (s.pages f).id ≡ false)
      (pinned : 0 < (s.pages f).pin_count) (honest : Honest f is_dirty s) where
    -- The frame was pinned, so it is not queued.
    not_queued : elem f (R.order s.replacer) ≡ false
    not_queued = ground (arith, c.queued_frame f)

    order-unpin_frame :
        (g : ℕ)
        → elem g (R.order (unpin_frame blank R f is_dirty s).replacer)
          ≡ ((if f == g then (s.pages f).pin_count - 1 == 0 else elem g (R.order s.replacer)))
    unfolding unpin_frame
    order-unpin_frame g = elim (Bool-cases ((s.pages f).pin_count - 1 == 0)) [
      | inl last ↦
          rw
            (
              last,
              (R.unpin_order s.replacer f c.replacer_valid).0,
              elem-queue_unpin (R.max_size s.replacer) f g (R.order s.replacer) (room f s c lt),
            )
            (ground arith)
      | inr more ↦ rw more (ground (arith, not_queued))
    ]

    replacer-unpin_frame :
        R.IsValid (unpin_frame blank R f is_dirty s).replacer
        × (R.max_size (unpin_frame blank R f is_dirty s).replacer ≡ R.max_size s.replacer)
    unfolding unpin_frame
    replacer-unpin_frame = elim (Bool-cases ((s.pages f).pin_count - 1 == 0)) [
      | inl last ↦ let (order, v, m) = R.unpin_order s.replacer f c.replacer_valid in rw last (v, m)
      | inr more ↦ rw more (c.replacer_valid, refl)
    ]

    unpin_frame-IsConsistent : IsConsistent R (unpin_frame blank R f is_dirty s)
    unfolding unpin_frame
    unpin_frame-IsConsistent = record {
      table_frame = λ id g h. ground (arith, c.table_frame id g);
      frame_table = λ g lt h. ground (arith, c.frame_table g);
      free_frame = λ g h. ground (arith, c.free_frame g);
      idle_free = λ g lt h. ground (arith, c.idle_free g);
      free_distinct = c.free_distinct;
      queued_frame = λ g h. ground (arith, order-unpin_frame g, c.queued_frame g);
      unpinned_queued = λ g lt h p. ground (arith, order-unpin_frame g, c.unpinned_queued g);
      replacer_valid = replacer-unpin_frame.0;
      replacer_fits = omega (arith, replacer-unpin_frame.1, c.replacer_fits);
      clean_stored = λ g lt h p d. ground (arith, c.clean_stored g);
    }

    view-unpin_frame : (k : PageId) → view k (unpin_frame blank R f is_dirty s) ≡ view k s
    unfolding view unpin_frame
    view-unpin_frame k = ground arith

  -- On a consistent pool, an unpin of a page that is cached and pinned succeeds, takes one pin
  -- and adds the dirty mark to the page's; it keeps the pool consistent and every page's content,
  -- if a page whose last pin goes and that is not marked dirty is as it is on disk.
  pub unpin_page-pinned :
      (id : PageId) (is_dirty : Bool) (s : Pool A R.State) (f : ℕ)
      → IsConsistent R s
      → lookup id s.page_table ≡ some f
      → 0 < (s.pages f).pin_count
      → Honest f is_dirty s
      → ((unpin_page blank R id is_dirty s).1 ≡ true)
        × IsConsistent R (unpin_page blank R id is_dirty s).0
        × ((k : PageId) → view k (unpin_page blank R id is_dirty s).0 ≡ view k s)
        × (((unpin_page blank R id is_dirty s).0.pages f).pin_count + 1 ≡ (s.pages f).pin_count)
        × (((unpin_page blank R id is_dirty s).0.pages f).is_dirty
            ≡ ((s.pages f).is_dirty || is_dirty))
  unfolding unpin_page unpin_found
  unpin_page-pinned id is_dirty s f c found pinned honest =
      let (same, valid, lt) = c.table_frame id f found in
      let valid' : is_invalid (s.pages f).id ≡ false = rw same valid in
      let test : leb (s.pages f).pin_count 0 ≡ false = ground arith in
      rw (found, unpin_found, test)
        (
          refl,
          unpin_frame-IsConsistent f is_dirty s c lt valid' pinned honest,
          view-unpin_frame f is_dirty s c lt valid' pinned honest,
          ground arith,
          ground arith,
        )

  -- An unpin of a page that is not cached, or not pinned, fails and changes nothing.
  unpin_page-refused :
      (id : PageId) (is_dirty : Bool) (s : Pool A R.State)
      → ((f : ℕ) → lookup id s.page_table ≡ some f → (s.pages f).pin_count ≡ 0)
      → unpin_page blank R id is_dirty s ≡ (s, false)
  unfolding unpin_page unpin_found
  unpin_page-refused id is_dirty s h = elim (Option-cases (lookup id s.page_table)) [
    | inl miss ↦ rw (miss, unpin_found)
    | inr (f, hit) ↦ rw (hit, unpin_found) (ground (arith, h f hit))
  ]
