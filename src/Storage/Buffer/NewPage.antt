-- ===== src/Storage/Buffer/NewPage.antt =====
-- `new_page`: a page number is allocated, and a frame that pins nothing is given to the blank page.
use db2024_main.Common.{
  ℕ, bind_pair-eq-ok, if◌then◌else◌, lookup, ok, pos, some, ◌+◌, ◌≡◌, Option, arith, none,
  Option-cases, ap, false, inl, inr, int_eq, refl, subst,
}
use db2024_main.Storage.Page.{PageId, page_id_eq, page_same, is_invalid}
use db2024_main.Storage.Disk
use db2024_main.Storage.Disk.{Disk}
use db2024_main.Replacer.{Replacer}
use db2024_main.Storage.Buffer.Invariant.{view, IsConsistent}
use db2024_main.Storage.Buffer.Replace.{
  Taken, first_page, Replaced-IsConsistent, view-Replaced, frame-Replaced,
}
use db2024_main.Storage.Buffer.Load.{
  update_page-Updated, pin_first-Replaced, find_victim_page-Taken, same_disk-find_victim_page,
}
use db2024_main.Storage.Buffer.{
  Pool, disk_allocate, find_victim_page, update_page, pin_first, new_into, new_page,
}

module _ {A : Type 0} (blank : A) (R : Replacer) where
  -- The page that the next allocation in the file gives.
  abbrev pub next_id : ℕ → Pool A R.State → PageId
  next_id fd s = record { fd = fd; page_no = pos (s.disk.fd2pageno fd) }

  -- `s2` is `s1` but for the allocation counters.
  SameButNext : Pool A R.State → Pool A R.State → Type 0
  SameButNext s1 s2 =
      (s2.pool_size ≡ s1.pool_size)
      × (s2.pages ≡ s1.pages)
      × (s2.page_table ≡ s1.page_table)
      × (s2.disk.stored ≡ s1.disk.stored)
      × (s2.free_list ≡ s1.free_list)
      × (s2.replacer ≡ s1.replacer)

  Taken-allocate :
      (f fd : ℕ) (s s1 s2 : Pool A R.State) → Taken R s s1 f → SameButNext s1 s2 → Taken R s s2 f
  unfolding SameButNext
  Taken-allocate f fd s s1 s2 t same = record {
    same_size = cc (same.0, t.same_size);
    same_pages = cc (same.1, t.same_pages);
    same_table = cc (same.2, t.same_table);
    same_stored = cc (same.3, t.same_stored);
    free = λ g. rw same.4 (t.free g);
    free_distinct = rw same.4 t.free_distinct;
    order = λ g. rw same.5 (t.order g);
    replacer_valid = rw same.5 t.replacer_valid;
    same_max = rw same.5 t.same_max;
    idle = t.idle;
    in_range = t.in_range;
  }

  disk_allocate-ok :
      (f fd : ℕ) (s s1 s2 : Pool A R.State) (n : ℕ)
      → Taken R s s1 f
      → disk_allocate blank R fd s1 ≡ (s2, ok n)
      → Taken R s s2 f × (n ≡ s1.disk.fd2pageno fd) × (s2.disk.fd2pageno fd ≡ n + 1)
  unfolding SameButNext disk_allocate Disk.allocate_page
  disk_allocate-ok f fd s s1 s2 n t h =
      (Taken-allocate f fd s s1 s2 t (ground arith), ground arith, ground arith)

  -- What a new page guarantees.
  pub record Created (s s2 : Pool A R.State) (f fd : ℕ) (id : PageId) : Type 0 where
    pub named : id ≡ next_id fd s
    pub consistent : IsConsistent R s2
    pub views : (k : PageId) → view k s2 ≡ (if page_same id k then some blank else view k s)
    pub cached : lookup id s2.page_table ≡ some f
    pub frame : s2.pages f ≡ first_page id blank
    pub next : s2.disk.fd2pageno fd ≡ s.disk.fd2pageno fd + 1

  valid_id : (fd n : ℕ) → is_invalid (record { fd = fd; page_no = pos n }) ≡ false
  unfolding is_invalid int_eq
  valid_id fd n = refl

  next-pin_first :
      (f : ℕ) (s : Pool A R.State) → (pin_first blank R f blank s).disk.fd2pageno ≡ s.disk.fd2pageno
  unfolding pin_first
  next-pin_first f s = refl

  null_new :
      (fd : ℕ) (s s2 : Pool A R.State) (x : PageId × ℕ)
      → ¬ (new_into blank R none fd s ≡ (s2, ok (some x)))
  unfolding new_into
  null_new fd s s2 x h = cc (h)

  new_into-Created :
      (f fd : ℕ) (s s1 s2 : Pool A R.State) (r : Option (PageId × ℕ))
      → IsConsistent R s
      → Taken R s s1 f
      → s1.disk ≡ s.disk
      → lookup (next_id fd s) s.page_table ≡ none
      → new_into blank R (some f) fd s1 ≡ (s2, ok r)
      → (r ≡ some (next_id fd s, f)) × Created s s2 f fd (next_id fd s)
  unfolding new_into
  new_into-Created f fd s s1 s2 r c t disk absent h =
      let (s3, n, allocated, h3) = bind_pair-eq-ok (disk_allocate blank R fd s1) _ h in
      let (t3, named, next) = disk_allocate-ok f fd s s1 s3 n t allocated in
      let id : PageId = record { fd = fd; page_no = pos n } in
      let (s4, u, updated, h4) = bind_pair-eq-ok (update_page blank R f id f s3) _ h3 in
      let named' : id ≡ next_id fd s =
        ap (λ m. record { fd = fd; page_no = pos m }) (cc (named, disk)) in
      let absent' : lookup id s.page_table ≡ none = rw named' absent in
      let u4 = update_page-Updated blank R f id s3 s4 (valid_id fd n) updated in
      let e : pin_first blank R f blank s4 ≡ s2 = cc (h4) in
      (
        cc (h4, named'),
        subst (λ x. Created s x f fd (next_id fd s)) e
            (subst (Created s (pin_first blank R f blank s4) f fd) named' (record {
              named = named';
              consistent =
                  Replaced-IsConsistent R s _ f id blank c
                    (pin_first-Replaced blank R f id s s3 s4 blank c t3 u4) absent' (valid_id fd n);
              views =
                  view-Replaced R s _ f id blank c
                    (pin_first-Replaced blank R f id s s3 s4 blank c t3 u4) absent' (valid_id fd n);
              cached =
                  (frame-Replaced R s _ f id blank c
                    (pin_first-Replaced blank R f id s s3 s4 blank c t3 u4) absent'
                    (valid_id fd n)).0;
              frame =
                  (frame-Replaced R s _ f id blank c
                    (pin_first-Replaced blank R f id s s3 s4 blank c t3 u4) absent'
                    (valid_id fd n)).1;
              next =
                  rw (next-pin_first f s4, u4.same_next)
                    (omega (arith, next, named, ap (λ (d : Disk A). d.fd2pageno fd) disk));
            })),
      )

  -- On a consistent pool that caches no page of the file's next page number, `new_page` that
  -- returns a page gives that number to a blank page, pinned once in the frame that is returned;
  -- it leaves the pool consistent and every other page with its content, and advances the
  -- counter.
  pub new_page-Created :
      (fd : ℕ) (s s2 : Pool A R.State) (id : PageId) (f : ℕ)
      → IsConsistent R s
      → lookup (next_id fd s) s.page_table ≡ none
      → new_page blank R fd s ≡ (s2, ok (some (id, f)))
      → Created s s2 f fd id
  unfolding new_page
  new_page-Created fd s s2 id f c absent h =
      let s1 = (find_victim_page blank R s).0 in
      elim (Option-cases (find_victim_page blank R s).1) [
        | inl lost ↦
            let h' : new_into blank R none fd s1 ≡ (s2, ok (some (id, f))) = rw lost at h in
            absurd (null_new fd s1 s2 (id, f) h')
        | inr (g, won) ↦
            let h' : new_into blank R (some g) fd s1 ≡ (s2, ok (some (id, f))) = rw won at h in
            let (same, created) =
              new_into-Created g fd s s1 s2 (some (id, f)) c
                (find_victim_page-Taken blank R s c g won) (same_disk-find_victim_page blank R s c)
                absent h' in
            let e : g ≡ f = cc (same) in
            let e2 : next_id fd s ≡ id = cc (same) in
            subst (λ x. Created s s2 x fd id) e (subst (Created s s2 g fd) e2 created)
      ]
