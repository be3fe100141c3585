-- ===== src/Record/Scan/First.antt =====
-- rm_scan.cpp, `next`: where it moves to.
use db2024_main.Common.{
  ℕ, Bool, leb, ltb, none, pos, some, true, ℤ, ◌&&◌, ◌<◌, ◌==◌, ◌||◌, ◌≡◌, ◌≤◌, arith, Bool-cases,
  inl, inr, ltb_false→le, ltb→lt, negsuc, ok, refl, suc, zero, ◌+◌, ◌-◌, ◌∙◌, subst,
}
use db2024_main.Record.Bitmap.{next_bit, after}
use db2024_main.Record.Bitmap.Slots.{next_bit-first}
use db2024_main.Record.File.{Rid, RmFile}
use db2024_main.Record.File.Handle.{fetch_page_handle-granted}
use db2024_main.Record.File.Valid.{IsValid, per_page, in_file, record_at}
use db2024_main.Record.File.Access.{Unchanged, visited, visited-Unchanged, rid_at}
use db2024_main.Record.Scan.{end_rid, next_slot, stop_or, next_loop, next_from, next}

-- The slot `j` of the page `m` is behind the slot `z` of the page `n`.
abbrev pub behind : ℕ → ℤ → ℕ → ℕ → Bool
behind n z m j = ltb n m || (n == m && leb (after z) j)

module _ {D : Type 0} where
  -- The result of a move from the slot `z` of the page `n`: the first record behind it, or the end
  -- when there is none.
  pub data Moved (n : ℕ) (z : ℤ) (s : RmFile D) : Rid → Type 0 where
    at :
        (m i : ℕ) (d : D)
        → behind n z m i ≡ true
        → record_at m i s ≡ some d
        → ((k j : ℕ) → behind n z k j ≡ true → behind k (pos j) m i ≡ true → record_at k j s ≡ none)
        → Moved n z s (rid_at m i)
    at_end :
        ((k j : ℕ) → behind n z k j ≡ true → record_at k j s ≡ none)
        → Moved n z s (end_rid s.hdr.num_pages)

  -- The page `n` of the file, seen from the slot `z`.
  step :
      (n i : ℕ) (z : ℤ) (s : RmFile D)
      → in_file n s ≡ true
      → next_bit true (s.pages n).bitmap (per_page s) z ≡ i
      → (i < per_page s → Moved n z s (rid_at n i))
        × (per_page s ≤ i → (j : ℕ) → after z ≤ j → record_at n j s ≡ none)
  unfolding record_at
  step n i z s h e =
      let (high, found, skipped) = next_bit-first true (s.pages n).bitmap (per_page s) z in
      (
        λ lt.
            at n i ((s.pages n).slots i) (ground (arith, found)) (ground (arith, found))
              (λ k j b c. ground (arith, skipped j)),
        λ le j a. ground (arith, skipped j),
      )

  -- A page without a record behind the slot `z` is skipped.
  skip :
      (n : ℕ) (z : ℤ) (s : RmFile D) (rid : Rid)
      → ((j : ℕ) → after z ≤ j → record_at n j s ≡ none)
      → Moved (n + 1) (negsuc 0) (visited n s) rid
      → Moved n z s rid
  unfolding record_at
  skip n z s rid none_here (at m i d b r before) = at m i d (ground arith) r (λ k j from to.
      elim (Bool-cases (k == n)) [
        | inl here ↦ subst (λ x. record_at x j s ≡ none) (ground arith) (none_here j (ground arith))
        | inr away ↦ before k j (ground arith) to
      ])
  skip n z s rid none_here (at_end before) = at_end (λ k j from. elim (Bool-cases (k == n)) [
    | inl here ↦ subst (λ x. record_at x j s ≡ none) (ground arith) (none_here j (ground arith))
    | inr away ↦ before k j (ground arith)
  ])

  -- What a move guarantees.
  pub record Advanced (n : ℕ) (z : ℤ) (s s2 : RmFile D) (rid : Rid) : Type 0 where
    pub unchanged : Unchanged s s2
    pub same_hdr : s2.hdr ≡ s.hdr
    pub moved : Moved n z s rid

  Unchanged-trans : (s s1 s2 : RmFile D) → Unchanged s s1 → Unchanged s1 s2 → Unchanged s s2
  Unchanged-trans s s1 s2 a b = record {
    records = λ m j. b.records m j ∙ a.records m j;
    pinned = λ m. b.pinned m ∙ a.pinned m;
    valid = b.valid;
  }

  beyond_end :
      (n : ℕ) (z : ℤ) (s : RmFile D)
      → s.hdr.num_pages ≤ n
      → (k j : ℕ) → behind n z k j ≡ true
      → record_at k j s ≡ none
  unfolding record_at
  beyond_end n z s le k j b = ground arith

  next_loop-suc :
      (r n : ℕ) (z : ℤ) (s : RmFile D)
      → in_file n s ≡ true
      → s.grants s.calls ≡ true
      → next_loop (suc r) n z s
        ≡ stop_or n
            (next_loop r (n + 1) (negsuc 0))
            (next_bit true (s.pages n).bitmap (per_page s) z)
            (visited n s)
  unfolding next_loop next_slot
  next_loop-suc r n z s h g = rw (fetch_page_handle-granted n s h g) refl

  pub next_loop_lem :
      (r n : ℕ) (z : ℤ) (s : RmFile D)
      → IsValid s
      → ((c : ℕ) → s.grants c ≡ true)
      → 0 < n
      → r ≡ s.hdr.num_pages - n
      → (s2 : RmFile D) × (rid : Rid) × (next_loop r n z s ≡ (s2, ok rid)) × Advanced n z s s2 rid
  unfolding next_loop
  next_loop_lem zero n z s v g first_le e = (
    s,
    end_rid s.hdr.num_pages,
    refl,
    record {
      unchanged = record { records = λ m j. refl; pinned = λ m. refl; valid = v };
      same_hdr = refl;
      moved = at_end (beyond_end n z s (omega arith));
    },
  )
  next_loop_lem (suc r) n z s v g first_le e =
      let h : in_file n s ≡ true = ground arith in
      let i = next_bit true (s.pages n).bitmap (per_page s) z in
      let first = visited-Unchanged n s v in
      let (s2, rid, returned, more) =
        next_loop_lem r (n + 1) (negsuc 0) (visited n s) (first.valid) g (omega arith)
          (omega arith) in
      let (stop, go_on) = step n i z s h refl in
      elim (Bool-cases (ltb i (per_page s))) [
        | inl found ↦ (
          visited n s,
          rid_at n i,
          next_loop-suc r n z s h (g s.calls) ∙ rw found refl,
          record { unchanged = first; same_hdr = refl; moved = stop (ltb→lt _ _ found) },
        )
        | inr full ↦ (
          s2,
          rid,
          next_loop-suc r n z s h (g s.calls) ∙ rw full returned,
          record {
            unchanged = Unchanged-trans s (visited n s) s2 first more.unchanged;
            same_hdr = more.same_hdr;
            moved = skip n z s rid (go_on (ltb_false→le _ _ full)) more.moved;
          },
        )
      ]

  -- On a valid file whose buffer pool grants every page, `next` from a slot of a page that is not
  -- the header page returns, and moves to the first record behind the slot in the order of pages
  -- and slots, or to the end if there is none; the records, the pins and the validity are kept.
  pub next-first :
      (n : ℕ) (z : ℤ) (s : RmFile D)
      → IsValid s
      → ((c : ℕ) → s.grants c ≡ true)
      → 0 < n
      → (s2 : RmFile D) × (rid : Rid) × (next (record { page_no = pos n; slot_no = z }) s
          ≡ (s2, ok rid))
        × Advanced n z s s2 rid
  unfolding next next_from
  next-first n z s v g positive = next_loop_lem (s.hdr.num_pages - n) n z s v g positive refl
