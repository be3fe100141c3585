-- ===== src/Storage/Buffer/Load.antt =====
-- The two steps of a page fault: a victim frame is taken, and `update_page` and `pin_first` give
-- it to another page.
use db2024_main.Common.{
  ℕ, arith, false, if◌then◌else◌, lookup, lookup-erase, lookup-insert, none, not, ok, some, ◌&&◌,
  ◌==◌, ◌≡◌, erase, subst, sym, Distinct, List, [], elem, refl, remove, true, ◌∷◌, ap,
}
use db2024_main.Storage.Page.{PageId, page_id_eq, page_same, Page, is_invalid}
use db2024_main.Storage.Disk
use db2024_main.Storage.Disk.{Disk}
use db2024_main.Replacer.{Replacer}
use db2024_main.Storage.Buffer.Invariant.{IsConsistent}
use db2024_main.Storage.Buffer.Replace.{Taken, Replaced}
use db2024_main.Storage.Buffer.{Pool, pop_free, find_victim_page, update_page, pin_first}

elem-remove_absent : (f g : ℕ) (xs : List ℕ) → elem f xs ≡ false → elem g (remove f xs) ≡ elem g xs
unfolding elem remove
elem-remove_absent f g [] h = refl
elem-remove_absent f g (x ∷ xs) h = ground (arith, elem-remove_absent f g xs)

module _ {A : Type 0} (blank : A) (R : Replacer) where
  -- `update_page` is done: the frame holds the new page, blank, and the old one is on disk if it
  -- was dirty.
  pub record Updated (s s2 : Pool A R.State) (f : ℕ) (id : PageId) (page : Page A) : Type 0 where
    pub same_size : s2.pool_size ≡ s.pool_size
    pub same_next : s2.disk.fd2pageno ≡ s.disk.fd2pageno
    pub same_free : s2.free_list ≡ s.free_list
    pub same_replacer : s2.replacer ≡ s.replacer
    pub pages : (g : ℕ) → s2.pages g ≡ (if f == g then page else s.pages g)
    pub table :
        (k : PageId)
        → lookup k s2.page_table ≡ (
            if page_same id k
            then some f
            else if not (is_invalid (s.pages f).id) && page_same (s.pages f).id k
            then none
            else lookup k s.page_table)
    pub stored :
        (k : PageId)
        → s2.disk.stored k ≡ (
            if not (is_invalid (s.pages f).id)
              && ((s.pages f).is_dirty && page_same (s.pages f).id k)
            then some (s.pages f).content
            else s.disk.stored k)

  module _ (f : ℕ) (id : PageId) where
    pub update_page-Updated :
        (s s2 : Pool A R.State)
        → is_invalid id ≡ false
        → update_page blank R f id f s ≡ (s2, ok tt)
        → Updated s s2 f id (record { id = id; content = blank; is_dirty = false; pin_count = 0 })
    unfolding update_page Disk.write_page Disk.store
    update_page-Updated s s2 valid h = record {
      same_size = ground arith;
      same_next = ground arith;
      same_free = ground arith;
      same_replacer = ground arith;
      pages = λ g. ground arith;
      table = λ k. ground (
        arith,
        lookup-insert id k f s.page_table,
        lookup-insert id k f (erase (s.pages f).id s.page_table),
        lookup-erase (s.pages f).id k s.page_table,
      );
      stored = λ k. ground arith;
    }

    -- After `pin_first` the frame that was taken is given to the page.
    pub pin_first-Replaced :
        (s s1 s2 : Pool A R.State) (a : A)
        → IsConsistent R s
        → Taken R s s1 f
        → Updated s1 s2 f id (record { id = id; content = blank; is_dirty = false; pin_count = 0 })
        → Replaced R s (pin_first blank R f a s2) f id a
    unfolding pin_first
    pin_first-Replaced s s1 s2 a c t u =
        let pinned =
          R.pin_order s2.replacer f (subst R.IsValid (sym u.same_replacer) t.replacer_valid) in
        record {
          same_size = cc (u.same_size, t.same_size);
          pages = λ g. ground (arith, u.pages g, u.pages f, t.same_pages);
          table = λ k. rw (← t.same_table, ← t.same_pages) (u.table k);
          stored = λ k. rw (← t.same_stored, ← t.same_pages) (u.stored k);
          free = λ g. rw u.same_free (t.free g);
          free_distinct = rw u.same_free t.free_distinct;
          order = λ g.
              rw (pinned.0, u.same_replacer)
                (ground
                  (arith, t.order g, elem-remove_absent f g (R.order s1.replacer), t.order f));
          replacer_valid = pinned.1;
          same_max = cc (pinned.2, u.same_replacer, t.same_max);
          idle = t.idle;
          in_range = t.in_range;
        }

module _ {A : Type 0} (blank : A) (R : Replacer) (s : Pool A R.State) (c : IsConsistent R s) where
  free-Taken : (f : ℕ) (l : List ℕ) → s.free_list ≡ f ∷ l → Taken R s (record s { free_list = l }) f
  unfolding elem
  free-Taken f l e =
      let distinct : Distinct (f ∷ l) = subst Distinct e c.free_distinct in
      let free : elem f s.free_list ≡ true = rw e (ground arith) in
      record {
        same_size = refl;
        same_pages = refl;
        same_table = refl;
        same_stored = refl;
        free = λ g. rw e (ground (arith, distinct.0));
        free_distinct = distinct.1;
        order = λ g. ground (arith, c.free_frame f free, c.queued_frame f);
        replacer_valid = c.replacer_valid;
        same_max = refl;
        idle = ground (arith, c.free_frame f free);
        in_range = (c.free_frame f free).1;
      }

  queue-Taken :
      (f : ℕ) (l : List ℕ) (r : R.State)
      → R.order s.replacer ≡ f ∷ l
      → R.order r ≡ l
      → R.IsValid r
      → R.max_size r ≡ R.max_size s.replacer
      → Taken R s (record s { replacer = r }) f
  unfolding elem
  queue-Taken f l r e o v m =
      let distinct : Distinct (f ∷ l) =
        subst Distinct e (R.order_distinct s.replacer c.replacer_valid) in
      let queued : elem f (R.order s.replacer) ≡ true = rw e (ground arith) in
      record {
        same_size = refl;
        same_pages = refl;
        same_table = refl;
        same_stored = refl;
        free = λ g. ground (arith, c.free_frame f, c.queued_frame f queued);
        free_distinct = c.free_distinct;
        order = λ g. rw (e, o) (ground (arith, distinct.0));
        replacer_valid = v;
        same_max = m;
        idle = λ h. (c.queued_frame f queued).1;
        in_range = (c.queued_frame f queued).2;
      }

  -- A victim that the replacer or the free list gives was taken from it.
  queue-victim :
      (l : List ℕ) (f : ℕ)
      → R.order s.replacer ≡ l
      → (R.victim s.replacer).1 ≡ some f
      → Taken R s (record s { replacer = (R.victim s.replacer).0 }) f
  queue-victim [] f e h =
      absurd (cc (h, ap (λ p. p.1) (R.victim_none s.replacer c.replacer_valid e)))
  queue-victim (x ∷ l) f e h =
      let (found, order, valid, max) = R.victim_some s.replacer x l c.replacer_valid e in
      let same : x ≡ f = cc (h, found) in
      subst (Taken R s (record s { replacer = (R.victim s.replacer).0 })) same
        (queue-Taken x l (R.victim s.replacer).0 e order valid max)

  pop_free-Taken :
      (l : List ℕ) (f : ℕ)
      → s.free_list ≡ l
      → (pop_free blank R l s).1 ≡ some f
      → Taken R s (pop_free blank R l s).0 f
  unfolding pop_free
  pop_free-Taken [] f e h = queue-victim (R.order s.replacer) f refl h
  pop_free-Taken (x ∷ l) f e h =
      let same : x ≡ f = cc (h) in
      subst (Taken R s (record s { free_list = l })) same (free-Taken x l e)

  pub find_victim_page-Taken :
      (f : ℕ) → (find_victim_page blank R s).1 ≡ some f → Taken R s (find_victim_page blank R s).0 f
  unfolding find_victim_page
  find_victim_page-Taken f h = pop_free-Taken s.free_list f refl h

  same_disk-pop_free : (l : List ℕ) → (pop_free blank R l s).0.disk ≡ s.disk
  unfolding pop_free
  same_disk-pop_free [] = refl
  same_disk-pop_free (x ∷ l) = refl

  pub same_disk-find_victim_page : (find_victim_page blank R s).0.disk ≡ s.disk
  unfolding find_victim_page
  same_disk-find_victim_page = same_disk-pop_free s.free_list
