-- ===== src/Storage/Buffer/Exhausted.antt =====
-- When the buffer pool has no frame to give.
use db2024_main.Common.{
  ℕ, bind_pair-eq-ok, List, Option, [], ap, arith, elem, false, none, refl, ◌<◌, ◌∷◌, ◌≡◌,
  Option-cases, Result, inl, inr, lookup, ok, some, true, ◌↔◌, ◌∙◌, ◌≢◌,
}
use db2024_main.Storage.Page.{PageId, page_id_eq, is_invalid}
use db2024_main.Replacer.{Replacer}
use db2024_main.Storage.Buffer.Invariant.{IsConsistent}
use db2024_main.Storage.Buffer.{
  Pool, pop_free, find_victim_page, update_page, disk_read, fetch_into, fetch_found, fetch_page,
}

nil_of_empty : (l : List ℕ) → ((a : ℕ) → elem a l ≡ true → ⊥) → l ≡ []
unfolding elem
nil_of_empty [] h = refl
nil_of_empty (x ∷ l) h = absurd (h x (ground arith))

pair_eq : {S B : Type 0} (m : S × Result B) {b : B} → m.1 ≡ ok b → m ≡ (m.0, ok b)
pair_eq (s, r) h = ground arith

module _ {A : Type 0} (blank : A) (R : Replacer) where
  -- Every frame holds a page that is pinned.
  abbrev pub AllPinned : Pool A R.State → Type 0
  AllPinned s =
      (f : ℕ) → f < s.pool_size → (is_invalid (s.pages f).id ≡ false) × (0 < (s.pages f).pin_count)

  module _ (s : Pool A R.State) (c : IsConsistent R s) where
    order-none : (l : List ℕ) → R.order s.replacer ≡ l → (R.victim s.replacer).1 ≡ none → l ≡ []
    order-none [] e h = refl
    order-none (x ∷ l) e h = cc (h, (R.victim_some s.replacer x l c.replacer_valid e).0)

    pop_free-none :
        (l : List ℕ)
        → s.free_list ≡ l
        → (pop_free blank R l s).1 ≡ none
        → (s.free_list ≡ []) × (R.order s.replacer ≡ []) × ((pop_free blank R l s).0 ≡ s)
    unfolding pop_free
    pop_free-none [] e h =
        let empty = order-none (R.order s.replacer) refl h in
        (
          e,
          empty,
          ap (λ (p : R.State × Option ℕ). record s { replacer = p.0 })
              (R.victim_none s.replacer c.replacer_valid empty),
        )
    pop_free-none (x ∷ l) e h = cc (h)

    pub find_victim_page-none :
        (find_victim_page blank R s).1 ≡ none → AllPinned s × ((find_victim_page blank R s).0 ≡ s)
    unfolding find_victim_page elem
    find_victim_page-none h =
        let (free, order, same) = pop_free-none s.free_list refl h in
        (λ f lt. ground (arith, free, order, c.idle_free f lt, c.unpinned_queued f lt), same)

    find_victim_page-pinned : AllPinned s → find_victim_page blank R s ≡ (s, none)
    unfolding find_victim_page pop_free
    find_victim_page-pinned all =
        let free = nil_of_empty s.free_list (λ a m. ground (arith, c.free_frame a m, all a)) in
        let order =
          nil_of_empty (R.order s.replacer) (λ a m. ground (arith, c.queued_frame a m, all a)) in
        rw (free, pop_free, R.victim_none s.replacer c.replacer_valid order)

  into-none :
      (f : ℕ) (id : PageId) (s : Pool A R.State) (r : Result (Option ℕ))
      → (fetch_into blank R (some f) id s).1 ≡ r
      → r ≢ ok none
  unfolding fetch_into
  into-none f id s r h e =
      let (s1, u, up, h1) =
        bind_pair-eq-ok (update_page blank R f id f s) _
          (pair_eq (fetch_into blank R (some f) id s) (h ∙ e)) in
      let (s2, a, rd, h2) = bind_pair-eq-ok (disk_read blank R id s1) _ h1 in cc (h2)

  module _ (id : PageId) (s : Pool A R.State) (c : IsConsistent R s) where
    fetch_found-null :
        (r : Option ℕ) → (fetch_found blank R r id s).1 ≡ ok none → (r ≡ none) × AllPinned s
    unfolding fetch_found fetch_into
    fetch_found-null (some f) h = cc (h)
    fetch_found-null none h = elim (Option-cases (find_victim_page blank R s).1) [
      | inl lost ↦ (refl, (find_victim_page-none s c lost).0)
      | inr (g, won) ↦ absurd (into-none g id (find_victim_page blank R s).0 _ refl (rw won at h))
    ]

    fetch_found-pinned : AllPinned s → fetch_found blank R none id s ≡ (s, ok none)
    unfolding fetch_found fetch_into
    fetch_found-pinned all = rw (find_victim_page-pinned s c all)

    -- On a consistent pool, `fetch_page` returns the null pointer exactly when the page is not
    -- cached and every frame holds a pinned page, and then it changes nothing.
    pub fetch_page-null_iff :
        (((fetch_page blank R id s).1 ≡ ok none) ↔ ((lookup id s.page_table ≡ none) × AllPinned s))
        × ((fetch_page blank R id s).1 ≡ ok none → fetch_page blank R id s ≡ (s, ok none))
    unfolding fetch_page
    fetch_page-null_iff =
        let back : (lookup id s.page_table ≡ none) × AllPinned s
            → fetch_found blank R (lookup id s.page_table) id s ≡ (s, ok none) =
          λ p. rw p.0 (fetch_found-pinned p.1) in
        let forth = fetch_found-null (lookup id s.page_table) in
        ((forth, λ p. ap (λ x. x.1) (back p)), λ h. back (forth h))
