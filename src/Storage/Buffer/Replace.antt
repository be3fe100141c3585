-- ===== src/Storage/Buffer/Replace.antt =====
-- A frame that pins nothing is given to another page: what the step does to the pool, and that it
-- keeps the invariant and every page's content.
use db2024_main.Common.{
  ℕ, ◌<◌, ◌≡◌, arith, true, false, not, ◌&&◌, none, some, lookup, elem, Distinct, ◌==◌,
  if◌then◌else◌, Bool-cases, Option-cases, inl, inr,
}
use db2024_main.Storage.Page.{PageId, page_id_eq, page_same, page_same_iff, Page, is_invalid}
use db2024_main.Replacer.{Replacer}
use db2024_main.Storage.Buffer.{Pool}
use db2024_main.Storage.Buffer.Invariant.{view, IsConsistent}

abbrev pub first_page : {A : Type 0} → PageId → A → Page A
first_page id a = record { id = id; content = a; is_dirty = false; pin_count = 1 }

module _ {A : Type 0} (R : Replacer) where
  -- `s1` is `s` with the frame `f`, which pins nothing, taken from the free list and the replacer.
  pub record Taken (s s1 : Pool A R.State) (f : ℕ) : Type 0 where
    pub same_size : s1.pool_size ≡ s.pool_size
    pub same_pages : s1.pages ≡ s.pages
    pub same_table : s1.page_table ≡ s.page_table
    pub same_stored : s1.disk.stored ≡ s.disk.stored
    pub free : (g : ℕ) → elem g s1.free_list ≡ (if f == g then false else elem g s.free_list)
    pub free_distinct : Distinct s1.free_list
    pub order :
        (g : ℕ)
        → elem g (R.order s1.replacer) ≡ (if f == g then false else elem g (R.order s.replacer))
    pub replacer_valid : R.IsValid s1.replacer
    pub same_max : R.max_size s1.replacer ≡ R.max_size s.replacer
    pub idle : is_invalid (s.pages f).id ≡ false → (s.pages f).pin_count ≡ 0
    pub in_range : f < s.pool_size

  -- `s2` is `s` with the frame `f` given to the page `id`, with the content `a`.
  pub record Replaced (s s2 : Pool A R.State) (f : ℕ) (id : PageId) (a : A) : Type 0 where
    pub same_size : s2.pool_size ≡ s.pool_size
    pub pages : (g : ℕ) → s2.pages g ≡ (if f == g then first_page id a else s.pages g)
    pub table :
        (k : PageId)
        → lookup k s2.page_table ≡ (
            if page_same id k
            then some f
            else if not (is_invalid (s.pages f).id) && page_same (s.pages f).id k
            then none
            else lookup k s.page_table)
    pub stored :
        (k : PageId)
        → s2.disk.stored k ≡ (
            if not (is_invalid (s.pages f).id)
              && ((s.pages f).is_dirty && page_same (s.pages f).id k)
            then some (s.pages f).content
            else s.disk.stored k)
    pub free : (g : ℕ) → elem g s2.free_list ≡ (if f == g then false else elem g s.free_list)
    pub free_distinct : Distinct s2.free_list
    pub order :
        (g : ℕ)
        → elem g (R.order s2.replacer) ≡ (if f == g then false else elem g (R.order s.replacer))
    pub replacer_valid : R.IsValid s2.replacer
    pub same_max : R.max_size s2.replacer ≡ R.max_size s.replacer
    pub idle : is_invalid (s.pages f).id ≡ false → (s.pages f).pin_count ≡ 0
    pub in_range : f < s.pool_size

  module _ (s s2 : Pool A R.State) (f : ℕ) (id : PageId) (a : A) (c : IsConsistent R s)
      (r : Replaced s s2 f id a) (absent : lookup id s.page_table ≡ none)
      (valid : is_invalid id ≡ false) where
    -- No other frame holds the page that the frame held.
    alone :
        (g : ℕ)
        → g < s.pool_size
        → is_invalid (s.pages g).id ≡ false
        → page_same (s.pages f).id (s.pages g).id ≡ true
        → is_invalid (s.pages f).id ≡ false
        → f ≡ g
    alone g lt h same fv = ground (
      arith,
      page_same_iff (s.pages f).id (s.pages g).id,
      c.frame_table g lt h,
      c.frame_table f r.in_range fv,
    )

    table_frame :
        (k : PageId) (g : ℕ)
        → lookup k s2.page_table ≡ some g
        → ((s2.pages g).id ≡ k) × (is_invalid k ≡ false) × (g < s2.pool_size)
    table_frame k g h = ground (
      arith,
      r.table k,
      r.pages g,
      r.same_size,
      r.in_range,
      page_same_iff id k,
      page_same_iff (s.pages f).id k,
      c.table_frame k g,
    )

    frame_table :
        (g : ℕ)
        → g < s2.pool_size
        → is_invalid (s2.pages g).id ≡ false
        → lookup (s2.pages g).id s2.page_table ≡ some g
    frame_table g lt h = ground (
      arith,
      r.table (s2.pages g).id,
      r.pages g,
      r.same_size,
      page_same_iff id (s2.pages g).id,
      page_same_iff id (s.pages g).id,
      c.frame_table g,
      alone g,
    )

    view_other : (k : PageId) → page_same id k ≡ false → view k s2 ≡ view k s
    unfolding view
    view_other k h = elim (Option-cases (lookup k s.page_table)) [
      | inl miss ↦ ground (
        arith,
        miss,
        r.table k,
        r.stored k,
        page_same_iff (s.pages f).id k,
        c.frame_table f r.in_range,
      )
      | inr (g, hit) ↦ ground (
        arith,
        hit,
        r.table k,
        r.stored k,
        r.pages g,
        page_same_iff (s.pages f).id k,
        c.table_frame k g hit,
        c.frame_table f r.in_range,
        c.clean_stored f r.in_range,
        r.idle,
      )
    ]

    pub Replaced-IsConsistent : IsConsistent R s2
    Replaced-IsConsistent = record {
      table_frame = table_frame;
      frame_table = frame_table;
      free_frame = λ g h. ground (arith, r.free g, r.pages g, c.free_frame g, r.same_size);
      idle_free = λ g lt h. ground (arith, r.free g, r.pages g, c.idle_free g, r.same_size);
      free_distinct = r.free_distinct;
      queued_frame = λ g h. ground (arith, r.order g, r.pages g, c.queued_frame g, r.same_size);
      unpinned_queued =
          λ g lt h p. ground (arith, r.order g, r.pages g, c.unpinned_queued g, r.same_size);
      replacer_valid = r.replacer_valid;
      replacer_fits = omega (arith, r.same_max, r.same_size, c.replacer_fits);
      clean_stored = λ g lt h p d.
          ground
            (arith, r.pages g, r.same_size, r.stored (s2.pages g).id, c.clean_stored g, alone g);
    }

    pub view-Replaced : (k : PageId) → view k s2 ≡ (if page_same id k then some a else view k s)
    unfolding view
    view-Replaced k = elim (Bool-cases (page_same id k)) [
      | inl same ↦ ground (arith, same, r.table k, r.pages f)
      | inr other ↦ rw other (view_other k other)
    ]

    pub frame-Replaced : (lookup id s2.page_table ≡ some f) × (s2.pages f ≡ first_page id a)
    frame-Replaced = ground (arith, r.table id, r.pages f, page_same_iff id id)
