-- ===== src/Storage/Buffer/Flush.antt =====
-- `flush_page` and `flush_all_pages`.
use db2024_main.Common.{
  ℕ, bind_pair-eq-ok, Bool, List, Option-cases, arith, false, if◌then◌else◌, inl, inr, lookup, ok,
  some, true, ◌==◌, ◌≡◌, All, Bool-cases, [], ap, refl, subst, ◌∙◌, ◌∷◌,
}
use db2024_main.Storage.Page.{PageId, page_id_eq, page_same, page_same_iff}
use db2024_main.Storage.Disk
use db2024_main.Replacer.{Replacer}
use db2024_main.Storage.Buffer.Invariant.{view, IsConsistent}
use db2024_main.Storage.Buffer.{
  Pool, flush_frame, flush_found, flush_page, flush_entries, flush_all_pages,
}

module _ {A : Type 0} (blank : A) (R : Replacer) where
  -- `s2` is `s` with the page `id` of the frame `f` written and no longer dirty.
  pub record Flushed (s s2 : Pool A R.State) (f : ℕ) (id : PageId) : Type 0 where
    pub same_size : s2.pool_size ≡ s.pool_size
    pub same_table : s2.page_table ≡ s.page_table
    pub same_free : s2.free_list ≡ s.free_list
    pub same_replacer : s2.replacer ≡ s.replacer
    pub pages :
        (g : ℕ)
        → s2.pages g ≡ (if f == g then record (s.pages f) { is_dirty = false } else s.pages g)
    pub stored :
        (k : PageId)
        → s2.disk.stored k ≡ (if page_same id k then some (s.pages f).content else s.disk.stored k)

  flush_frame-Flushed :
      (f : ℕ) (id : PageId) (s s2 : Pool A R.State)
      → flush_frame blank R id f s ≡ (s2, ok tt)
      → Flushed s s2 f id
  unfolding flush_frame Disk.write_page Disk.store
  flush_frame-Flushed f id s s2 h = record {
    same_size = ground arith;
    same_table = ground arith;
    same_free = ground arith;
    same_replacer = ground arith;
    pages = λ g. ground arith;
    stored = λ k. ground arith;
  }

  module _ (f : ℕ) (id : PageId) (s s2 : Pool A R.State) (c : IsConsistent R s)
      (u : Flushed s s2 f id) (found : lookup id s.page_table ≡ some f) where
    Flushed-IsConsistent : IsConsistent R s2
    Flushed-IsConsistent = record {
      table_frame = λ k g h.
          ground (arith, u.pages g, u.same_size, c.table_frame k g (rw (← u.same_table) h));
      frame_table =
          λ g lt h. rw u.same_table (ground (arith, u.pages g, u.same_size, c.frame_table g));
      free_frame =
          λ g h. ground (arith, u.pages g, u.same_size, c.free_frame g (rw (← u.same_free) h));
      idle_free = λ g lt h. rw u.same_free (ground (arith, u.pages g, u.same_size, c.idle_free g));
      free_distinct = rw u.same_free c.free_distinct;
      queued_frame = λ g h.
          ground (arith, u.pages g, u.same_size, c.queued_frame g (rw (← u.same_replacer) h));
      unpinned_queued = λ g lt h p.
          rw u.same_replacer (ground (arith, u.pages g, u.same_size, c.unpinned_queued g));
      replacer_valid = rw u.same_replacer c.replacer_valid;
      replacer_fits = rw (u.same_replacer, u.same_size) c.replacer_fits;
      clean_stored = λ g lt h p d. ground (
        arith,
        u.pages g,
        u.same_size,
        u.stored (s.pages g).id,
        c.clean_stored g,
        c.table_frame id f found,
        c.frame_table g,
        page_same_iff id (s.pages g).id,
      );
    }

    view-Flushed : (k : PageId) → view k s2 ≡ view k s
    unfolding view
    view-Flushed k =
        let same : lookup k s2.page_table ≡ lookup k s.page_table = ap (lookup k) u.same_table in
        elim (Option-cases (lookup k s.page_table)) [
          | inl miss ↦ ground (arith, same, u.stored k, page_same_iff id k)
          | inr (g, hit) ↦ ground (arith, same, u.pages g)
        ]

    on_disk : s2.disk.stored id ≡ some (s.pages f).content
    on_disk = ground (arith, u.stored id, page_same_iff id id)

  -- On a consistent pool, `flush_page` of a cached page that returns puts the page's content on
  -- disk and clears the dirty mark; it leaves the pool consistent, every page with its content,
  -- and every other page on disk as it was.
  flush_page-stored :
      (id : PageId) (s s2 : Pool A R.State) (f : ℕ) (b : Bool)
      → IsConsistent R s
      → lookup id s.page_table ≡ some f
      → flush_page blank R id s ≡ (s2, ok b)
      → (b ≡ true)
        × IsConsistent R s2
        × ((k : PageId) → view k s2 ≡ view k s)
        × (s2.disk.stored id ≡ view id s)
        × ((s2.pages f).is_dirty ≡ false)
        × ((k : PageId) → page_same id k ≡ false → s2.disk.stored k ≡ s.disk.stored k)
  unfolding flush_page flush_found view
  flush_page-stored id s s2 f b c found h =
      let h' : flush_found blank R (some f) id s ≡ (s2, ok b) = rw found at h in
      let (s3, t, flushed, h3) = bind_pair-eq-ok (flush_frame blank R id f s) _ h' in
      let e : s3 ≡ s2 = cc (h3) in
      let u = flush_frame-Flushed f id s s2 (cc (flushed, e)) in
      (
        cc (h3),
        Flushed-IsConsistent f id s s2 c u found,
        view-Flushed f id s s2 c u found,
        ground (arith, on_disk f id s s2 c u found),
        ground (arith, u.pages f),
        λ k ne. ground (arith, u.stored k),
      )

  -- The disk has the page as the clients see it.
  abbrev pub OnDisk : PageId → Pool A R.State → Type 0
  OnDisk k s = s.disk.stored k ≡ view k s

  -- A list of entries of the page table, each for the page that it is found under.
  abbrev pub Entries : List (PageId × ℕ) → Pool A R.State → Type 0
  Entries entries s = All (λ e. lookup e.0 s.page_table ≡ some e.1) entries

  keep-OnDisk :
      (f : ℕ) (id : PageId) (s s2 : Pool A R.State)
      → IsConsistent R s
      → Flushed s s2 f id
      → lookup id s.page_table ≡ some f
      → (k : PageId) → OnDisk k s
      → OnDisk k s2
  unfolding view
  keep-OnDisk f id s s2 c u found k h =
      let same = view-Flushed f id s s2 c u found k in
      ground (arith, same, u.stored k, page_same_iff id k)

  new-OnDisk :
      (f : ℕ) (id : PageId) (s s2 : Pool A R.State)
      → IsConsistent R s
      → Flushed s s2 f id
      → lookup id s.page_table ≡ some f
      → OnDisk id s2
  unfolding view
  new-OnDisk f id s s2 c u found =
      ground (arith, view-Flushed f id s s2 c u found id, on_disk f id s s2 c u found)

  -- What a run over some entries of the table leaves.
  record Swept (fd : ℕ) (entries : List (PageId × ℕ)) (s s2 : Pool A R.State) : Type 0 where
    consistent : IsConsistent R s2
    same_view : (k : PageId) → view k s2 ≡ view k s
    keep : (k : PageId) → OnDisk k s → OnDisk k s2
    swept : All (λ e. e.0.fd ≡ fd → OnDisk e.0 s2) entries

  Entries-table :
      (entries : List (PageId × ℕ)) (s s2 : Pool A R.State)
      → s2.page_table ≡ s.page_table
      → Entries entries s
      → Entries entries s2
  Entries-table [] s s2 e h = tt
  Entries-table ((id, f) ∷ l) s s2 e h = (rw e h.0, Entries-table l s s2 e h.1)

  flush_entries-Swept :
      (fd : ℕ) (entries : List (PageId × ℕ)) (s s2 : Pool A R.State)
      → IsConsistent R s
      → Entries entries s
      → flush_entries blank R fd entries s ≡ (s2, ok tt)
      → Swept fd entries s s2
  unfolding flush_entries
  flush_entries-Swept fd [] s s2 c es h =
      subst (Swept fd [] s) (cc (h))
        (record { consistent = c; same_view = λ k. refl; keep = λ k d. d; swept = tt })
  flush_entries-Swept fd ((id, f) ∷ l) s s2 c es h = elim (Bool-cases (id.fd == fd)) [
    | inl here ↦
        let (same, valid, lt) = c.table_frame id f es.0 in
        let (s3, u, flushed, h3) =
          bind_pair-eq-ok (flush_frame blank R id f s) _ (rw (here, valid) at h) in
        let fl = flush_frame-Flushed f id s s3 flushed in
        let rest =
          flush_entries-Swept fd l s3 s2 (Flushed-IsConsistent f id s s3 c fl es.0)
            (Entries-table l s s3 fl.same_table es.1) h3 in
        record {
          consistent = rest.consistent;
          same_view = λ k. rest.same_view k ∙ view-Flushed f id s s3 c fl es.0 k;
          keep = λ k d. rest.keep k (keep-OnDisk f id s s3 c fl es.0 k d);
          swept = (λ e. rest.keep id (new-OnDisk f id s s3 c fl es.0), rest.swept);
        }
    | inr away ↦
        let rest = flush_entries-Swept fd l s s2 c es.1 (rw away at h) in
        record {
          consistent = rest.consistent;
          same_view = rest.same_view;
          keep = rest.keep;
          swept = (λ e. absurd (ground arith), rest.swept);
        }
  ]

  swept-lookup :
      (fd : ℕ) (entries : List (PageId × ℕ)) (s : Pool A R.State) (id : PageId) (f : ℕ)
      → All (λ e. e.0.fd ≡ fd → OnDisk e.0 s) entries
      → lookup id entries ≡ some f
      → id.fd ≡ fd
      → OnDisk id s
  unfolding lookup
  swept-lookup fd [] s id f all h e = cc (h)
  swept-lookup fd ((k, g) ∷ l) s id f all h e = elim (Bool-cases (page_same k id)) [
    | inl same ↦
        let p : k ≡ id = (page_same_iff k id).0 same in
        subst (λ x. x.fd ≡ fd → OnDisk x s) p all.0 e
    | inr other ↦ swept-lookup fd l s id f all.1 (rw other at h) e
  ]

  -- On a consistent pool whose page table has one entry for a page, `flush_all_pages` that
  -- returns leaves every cached page of the file on disk with its content, the pool consistent
  -- and every page with its content.
  pub flush_all_pages-OnDisk :
      (fd : ℕ) (s s2 : Pool A R.State)
      → IsConsistent R s
      → Entries s.page_table s
      → flush_all_pages blank R fd s ≡ (s2, ok tt)
      → IsConsistent R s2
        × ((k : PageId) → view k s2 ≡ view k s)
        × ((id : PageId) (f : ℕ)
            → lookup id s.page_table ≡ some f
            → id.fd ≡ fd
            → s2.disk.stored id ≡ view id s)
  unfolding flush_all_pages
  flush_all_pages-OnDisk fd s s2 c es h =
      let r = flush_entries-Swept fd s.page_table s s2 c es h in
      (
        r.consistent,
        r.same_view,
        λ id f found e. swept-lookup fd s.page_table s2 id f r.swept found e ∙ r.same_view id,
      )
