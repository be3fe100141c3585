-- ===== src/Record/File/Open.antt =====
-- `create_page_handle`: the first page with a free slot, or a new page.
use db2024_main.Common.{
  ℕ, List, [], arith, false, if◌then◌else◌, int_eq, ok, pos, refl, subst, ℤ, ◌+◌, ◌==◌, ◌∷◌, ◌≡◌,
  Bool-cases, inl, inr, sym, true, ==_refl, elem, int_eq_iff,
}
use db2024_main.Record.Bitmap.{init, is_set}
use db2024_main.Record.Bitmap.Slots.{init-IsBytes, is_set-zeros}
use db2024_main.Record.Layout.{rm_no_page}
use db2024_main.Record.File.{
  RmPage, RmFile, with_page, pin, fetch_page_handle, blank_page, create_page_handle,
}
use db2024_main.Record.File.Page.{IsPage, count_empty}
use db2024_main.Record.File.Chain.{Chain, Chain-write}
use db2024_main.Record.File.Handle.{fetch_page_handle-ok}
use db2024_main.Record.File.Valid.{IsValid, per_page, in_file, record_at}

module _ {D : Type 0} (zeros : D) where
  -- A handle on a page with a free slot: the page `n` heads the list of free pages.
  pub record Opened (s s1 : RmFile D) (n : ℕ) : Type 0 where
    pub valid : IsValid s1
    pub rest : List ℕ
    pub head : valid.free ≡ n ∷ rest
    pub same : (m i : ℕ) → record_at m i s1 ≡ record_at m i s
    pub pinned : (m : ℕ) → s1.pins m ≡ (if n == m then s.pins n + 1 else s.pins m)
    pub same_per : per_page s1 ≡ per_page s

  pub head-Chain :
      (pages : ℕ → RmPage D) (z : ℤ) (l : List ℕ)
      → Chain pages z l
      → int_eq z rm_no_page ≡ false
      → (n : ℕ) × (rest : List ℕ) × (z ≡ pos n) × (l ≡ n ∷ rest)
  unfolding int_eq
  head-Chain pages z [] c h = ground arith
  head-Chain pages z (n ∷ l) c h = (n, l, c.0, refl)

  pub pin-IsValid : (n : ℕ) (s : RmFile D) → IsValid s → IsValid (pin n s)
  pin-IsValid n s v = record {
    free = v.free;
    positive = v.positive;
    has_header = v.has_header;
    numbered = v.numbered;
    pages = v.pages;
    chain = v.chain;
    distinct = v.distinct;
    listed = v.listed;
    room = v.room;
  }

  fetch-Opened :
      (s s1 : RmFile D) (n : ℕ) (v : IsValid s)
      → int_eq s.hdr.first_free_page_no rm_no_page ≡ false
      → fetch_page_handle s.hdr.first_free_page_no s ≡ (s1, ok n)
      → Opened s s1 n
  unfolding record_at pin-IsValid
  fetch-Opened s s1 n v more h =
      let (m, rest, e, l) = head-Chain s.pages s.hdr.first_free_page_no v.free v.chain more in
      let (named, pinned, inside) = fetch_page_handle-ok s.hdr.first_free_page_no s s1 n h in
      let here : m ≡ n = cc (e, named) in
      subst (λ x. Opened s x n) (sym pinned)
        (record {
          valid = pin-IsValid n s v;
          rest = rest;
          head = cc (l, here);
          same = λ a i. refl;
          pinned = λ a. refl;
          same_per = refl;
        })

  -- The file after `create_new_page_handle`.
  unfoldable pub grown : RmFile D → RmFile D
  grown s = record s {
    hdr = record s.hdr { num_pages = s.hdr.num_pages + 1; first_free_page_no = pos s.next_page };
    pages = with_page s.next_page (blank_page zeros s) s.pages;
    pins = with_page s.next_page (s.pins s.next_page + 1) s.pins;
    calls = s.calls + 1;
    next_page = s.next_page + 1;
  }

  blank : (s : RmFile D) (i : ℕ) → is_set (blank_page zeros s).bitmap i ≡ false
  unfolding blank_page init
  blank s i = is_set-zeros _ i (ground arith)

  grown_page :
      (s : RmFile D)
      → IsValid s
      → (n : ℕ) → in_file n (grown s) ≡ true
      → IsPage (per_page s) ((grown s).pages n)
  unfolding grown blank_page
  grown_page s v n h = elim (Bool-cases (s.next_page == n)) [
    | inl new ↦ rw new (record {
      bytes = init-IsBytes s.hdr.bitmap_size (λ b. 0) (λ b. omega arith);
      counted = sym (count_empty (per_page s) _ (λ j lt. blank s j));
    })
    | inr old ↦ rw old (v.pages n (ground (arith, v.numbered)))
  ]

  grown-Chain :
      (s : RmFile D) (v : IsValid s)
      → Chain (grown s).pages (pos s.next_page) (s.next_page ∷ v.free)
  unfolding grown blank_page
  grown-Chain s v = rw (==_refl s.next_page) (
    refl,
    Chain-write s.pages s.hdr.first_free_page_no v.free s.next_page (blank_page zeros s)
        (ground (arith, v.listed s.next_page, v.numbered)) v.chain,
  )

  grown-Opened :
      (s : RmFile D)
      → IsValid s
      → s.hdr.first_free_page_no ≡ rm_no_page
      → Opened s (grown s) s.next_page
  unfolding grown record_at elem blank_page
  grown-Opened s v empty = record {
    valid = record {
      free = s.next_page ∷ v.free;
      positive = v.positive;
      has_header = ground arith;
      numbered = omega (arith, v.numbered);
      pages = λ n h. grown_page s v n h;
      chain = grown-Chain s v;
      distinct = (ground (arith, v.listed s.next_page, v.numbered), v.distinct);
      listed = λ n h. ground (arith, v.listed n, v.numbered, v.positive);
      room = λ n h r. ground (arith, v.room n, v.numbered);
    };
    rest = v.free;
    head = refl;
    same = λ m i. ground (arith, v.numbered, blank s i);
    pinned = λ m. refl;
    same_per = refl;
  }

  -- A handle that is returned is on a page with a free slot.
  pub open_handle :
      (s s1 : RmFile D) (n : ℕ)
      → IsValid s
      → create_page_handle zeros s ≡ (s1, ok n)
      → Opened s s1 n
  unfolding create_page_handle grown int_eq
  open_handle s s1 n v h = elim (Bool-cases (int_eq s.hdr.first_free_page_no rm_no_page)) [
    | inl empty ↦
        let e : s.hdr.first_free_page_no ≡ rm_no_page =
          (int_eq_iff s.hdr.first_free_page_no rm_no_page).0 empty in
        let named : s.next_page ≡ n = ground (arith) in
        let grew : grown s ≡ s1 = ground arith in
        subst (λ x. Opened s x n) grew (subst (Opened s (grown s)) named (grown-Opened s v e))
    | inr more ↦ fetch-Opened s s1 n v more (rw more at h)
  ]
