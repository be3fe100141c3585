-- ===== src/Storage/Buffer/Fetch.antt =====
-- `fetch_page`: on a hit the frame is pinned once more, on a miss a frame that pins nothing is
-- given to the page.
use db2024_main.Common.{
  ℕ, bind_pair-eq-ok, Option, arith, false, int_eq, lookup, none, ok, some, ◌≡◌, Option-cases, inl,
  inr, subst, sym, elem-remove_ne, elem-remove_self, refl, ◌+◌, ◌<◌, ◌≤◌,
}
use db2024_main.Storage.Page.{PageId, page_id_eq, page_same_iff, is_invalid}
use db2024_main.Storage.Disk
use db2024_main.Storage.Disk.{Disk}
use db2024_main.Replacer.{Replacer}
use db2024_main.Storage.Buffer.Invariant.{view, IsConsistent}
use db2024_main.Storage.Buffer.Replace.{
  Taken, Replaced, Replaced-IsConsistent, view-Replaced, frame-Replaced,
}
use db2024_main.Storage.Buffer.Load.{
  update_page-Updated, pin_first-Replaced, find_victim_page-Taken,
}
use db2024_main.Storage.Buffer.{
  Pool, put, disk_read, find_victim_page, update_page, pin_first, fetch_into, fetch_found,
  fetch_page,
}

module _ {A : Type 0} (blank : A) (R : Replacer) where
  disk_read-ok :
      (id : PageId) (s s2 : Pool A R.State) (a : A)
      → disk_read blank R id s ≡ (s2, ok a)
      → (s2 ≡ s) × (s.disk.stored id ≡ some a) × (is_invalid id ≡ false)
  unfolding disk_read Disk.read_page is_invalid int_eq
  disk_read-ok id s s2 a h = ground arith

  disk-pin_first :
      (f : ℕ) (a : A) (id : PageId) (s : Pool A R.State)
      → s.disk.stored id ≡ some a
      → (pin_first blank R f a s).disk.stored id ≡ some a
  unfolding pin_first
  disk-pin_first f a id s h = h

  fetch_into-Replaced :
      (f : ℕ) (id : PageId) (s s1 s2 : Pool A R.State) (r : Option ℕ)
      → IsConsistent R s
      → Taken R s s1 f
      → lookup id s.page_table ≡ none
      → fetch_into blank R (some f) id s1 ≡ (s2, ok r)
      → (a : A) × (r ≡ some f)
        × Replaced R s s2 f id a
        × (s2.disk.stored id ≡ some a)
        × (is_invalid id ≡ false)
  unfolding fetch_into
  fetch_into-Replaced f id s s1 s2 r c t absent h =
      let (s3, u, updated, h3) = bind_pair-eq-ok (update_page blank R f id f s1) _ h in
      let (s4, a, loaded, h4) = bind_pair-eq-ok (disk_read blank R id s3) _ h3 in
      let (same, stored, valid) = disk_read-ok id s3 s4 a loaded in
      let e : s2 ≡ pin_first blank R f a s3 = cc (h4, same) in
      let u3 = update_page-Updated blank R f id s1 s3 valid updated in
      (
        a,
        cc (h4),
        subst (λ x. Replaced R s x f id a) (sym e)
            (pin_first-Replaced blank R f id s s1 s3 a c t u3),
        subst (λ x. x.disk.stored id ≡ some a) (sym e) (disk-pin_first f a id s3 stored),
        valid,
      )

  null_fetch :
      (id : PageId) (s s2 : Pool A R.State) (f : ℕ)
      → ¬ (fetch_into blank R none id s ≡ (s2, ok (some f)))
  unfolding fetch_into
  null_fetch id s s2 f h = cc (h)

  -- A miss that returns a page has given a frame to it.
  pub fetch_found-miss :
      (id : PageId) (s s2 : Pool A R.State) (f : ℕ)
      → IsConsistent R s
      → lookup id s.page_table ≡ none
      → fetch_found blank R none id s ≡ (s2, ok (some f))
      → (a : A) × Replaced R s s2 f id a × (s2.disk.stored id ≡ some a) × (is_invalid id ≡ false)
  unfolding fetch_found
  fetch_found-miss id s s2 f c absent h =
      let s1 = (find_victim_page blank R s).0 in
      elim (Option-cases (find_victim_page blank R s).1) [
        | inl lost ↦
            let h' : fetch_into blank R none id s1 ≡ (s2, ok (some f)) = rw lost at h in
            absurd (null_fetch id s1 s2 f h')
        | inr (g, won) ↦
            let h' : fetch_into blank R (some g) id s1 ≡ (s2, ok (some f)) = rw won at h in
            let taken = find_victim_page-Taken blank R s c g won in
            let (a, same, replaced, stored, valid) =
              fetch_into-Replaced g id s s1 s2 (some f) c taken absent h' in
            let e : g ≡ f = cc (same) in
            (a, subst (λ x. Replaced R s s2 x id a) e replaced, stored, valid)
      ]

  -- A hit pins the frame once more, and keeps the invariant.
  repin : ℕ → Pool A R.State → Pool A R.State
  repin f s = record s {
    pages = put f (record (s.pages f) { pin_count = (s.pages f).pin_count + 1 }) s.pages;
    replacer = R.pin f s.replacer;
  }

  repin-IsConsistent : (f : ℕ) (s : Pool A R.State) → IsConsistent R s → IsConsistent R (repin f s)
  unfolding repin
  repin-IsConsistent f s c =
      let (order, valid, max) = R.pin_order s.replacer f c.replacer_valid in
      let distinct = R.order_distinct s.replacer c.replacer_valid in
      record {
        table_frame = λ id g h. ground (arith, c.table_frame id g h);
        frame_table = λ g lt h. ground (arith, c.frame_table g lt);
        free_frame = λ g h. ground (arith, c.free_frame g h);
        idle_free = λ g lt h. ground (arith, c.idle_free g lt);
        free_distinct = c.free_distinct;
        queued_frame = λ g h. ground (
          arith,
          order,
          c.queued_frame g,
          elem-remove_ne g f (R.order s.replacer),
          elem-remove_self f (R.order s.replacer) distinct,
        );
        unpinned_queued = λ g lt h p.
            ground (arith, order, c.unpinned_queued g lt, elem-remove_ne g f (R.order s.replacer));
        replacer_valid = valid;
        replacer_fits = omega (arith, max, c.replacer_fits);
        clean_stored = λ g lt h p d. ground (arith, c.clean_stored g lt);
      }

  view-repin : (f : ℕ) (s : Pool A R.State) (k : PageId) → view k (repin f s) ≡ view k s
  unfolding view repin
  view-repin f s k = ground arith

  fetch_found-hit :
      (f : ℕ) (id : PageId) (s : Pool A R.State)
      → fetch_found blank R (some f) id s ≡ (repin f s, ok (some f))
  unfolding fetch_found repin
  fetch_found-hit f id s = refl

  -- What a fetch that returns the frame `f` guarantees.
  pub record Fetched (s s2 : Pool A R.State) (f : ℕ) (id : PageId) : Type 0 where
    pub consistent : IsConsistent R s2
    pub same_view : (k : PageId) → view k s2 ≡ view k s
    pub cached : lookup id s2.page_table ≡ some f
    pub content : view id s ≡ some (s2.pages f).content
    pub pinned : 0 < (s2.pages f).pin_count
    pub others :
        (g : ℕ)
        → 0 < (s.pages g).pin_count
        → is_invalid (s.pages g).id ≡ false
        → ((s2.pages g).id ≡ (s.pages g).id)
          × ((s2.pages g).content ≡ (s.pages g).content)
          × ((s.pages g).pin_count ≤ (s2.pages g).pin_count)

  hit-Fetched :
      (f : ℕ) (id : PageId) (s : Pool A R.State)
      → IsConsistent R s
      → lookup id s.page_table ≡ some f
      → Fetched s (repin f s) f id
  unfolding repin view
  hit-Fetched f id s c found = record {
    consistent = repin-IsConsistent f s c;
    same_view = view-repin f s;
    cached = found;
    content = ground arith;
    pinned = ground arith;
    others = λ g p v. ground arith;
  }

  miss_view :
      (f : ℕ) (id : PageId) (s s2 : Pool A R.State) (a : A)
      → IsConsistent R s
      → lookup id s.page_table ≡ none
      → s2.disk.stored id ≡ some a
      → Replaced R s s2 f id a
      → view id s ≡ some a
  unfolding view
  miss_view f id s s2 a c absent stored r =
      ground (arith, r.stored id, c.frame_table f r.in_range, page_same_iff (s.pages f).id id)

  miss-Fetched :
      (f : ℕ) (id : PageId) (s s2 : Pool A R.State) (a : A)
      → IsConsistent R s
      → lookup id s.page_table ≡ none
      → is_invalid id ≡ false
      → s2.disk.stored id ≡ some a
      → Replaced R s s2 f id a
      → Fetched s s2 f id
  miss-Fetched f id s s2 a c absent valid stored r =
      let frame = frame-Replaced R s s2 f id a c r absent valid in
      let seen : view id s ≡ some a = miss_view f id s s2 a c absent stored r in
      record {
        consistent = Replaced-IsConsistent R s s2 f id a c r absent valid;
        same_view = λ k.
            ground
              (arith, view-Replaced R s s2 f id a c r absent valid k, seen, page_same_iff id k);
        cached = frame.0;
        content = ground (arith, seen, frame.1);
        pinned = ground (arith, frame.1);
        others = λ g p v. ground (arith, r.pages g, r.idle);
      }

  -- On a consistent pool, a fetch that returns a frame leaves the pool consistent and every page
  -- with its content; the frame holds the page asked for, with its content, and is pinned; and no
  -- frame that was pinned is given to another page, changed or unpinned.
  pub fetch_page-Fetched :
      (id : PageId) (s s2 : Pool A R.State) (f : ℕ)
      → IsConsistent R s
      → fetch_page blank R id s ≡ (s2, ok (some f))
      → Fetched s s2 f id
  unfolding fetch_page
  fetch_page-Fetched id s s2 f c h = elim (Option-cases (lookup id s.page_table)) [
    | inl absent ↦
        let h' : fetch_found blank R none id s ≡ (s2, ok (some f)) = rw absent at h in
        let (a, replaced, stored, valid) = fetch_found-miss id s s2 f c absent h' in
        miss-Fetched f id s s2 a c absent valid stored replaced
    | inr (g, found) ↦
        let h' : fetch_found blank R (some g) id s ≡ (s2, ok (some f)) = rw found at h in
        let e : g ≡ f = cc (h', fetch_found-hit g id s) in
        let e2 : repin g s ≡ s2 = cc (h', fetch_found-hit g id s) in
        subst (λ x. Fetched s x f id) e2
          (subst (λ x. Fetched s (repin g s) x id) e (hit-Fetched g id s c found))
  ]
