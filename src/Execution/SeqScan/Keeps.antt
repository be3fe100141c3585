-- ===== src/Execution/SeqScan/Keeps.antt =====
-- What the reads of a table file leave alone: the header and the pages that the pool grants.
use db2024_main.Common.{
  ℕ, ℤ, Bool-cases, M, Result, bind_pair, inl, inr, negsuc, ok, pos, raise, refl, suc, zero, ◌+◌,
  ◌-◌, ◌∙◌, ◌≡◌, ltb,
}
use db2024_main.Record.File.{
  Rid, RmFile, fetch_page_handle, get_record, get_record_in, missing, page_out,
}
use db2024_main.Record.Scan.{next, next_from, next_loop, next_slot, stop_or}

module _ {D : Type 0} where
  pub record Same (s s2 : RmFile D) : Type 0 where
    pub hdr : s2.hdr ≡ s.hdr
    pub grants : s2.grants ≡ s.grants

  Same-refl : (s : RmFile D) → Same s s
  Same-refl s = record { hdr = refl; grants = refl }

  pub Same-trans : (s t u : RmFile D) → Same s t → Same t u → Same s u
  Same-trans s t u a b = record { hdr = b.hdr ∙ a.hdr; grants = b.grants ∙ a.grants }

  -- A chain of calls.
  bind_pair-Same :
      {A B : Type 0} (s : RmFile D) (m : RmFile D × Result A) (f : A → M (RmFile D) B)
      → Same s m.0
      → ((a : A) (t : RmFile D) → Same t (f a t).0)
      → Same s (bind_pair m f).0
  bind_pair-Same s (t, ok a) f h k = Same-trans s t _ h (k a t)
  bind_pair-Same s (t, raise e) f h k = h

  fetch-Same : (p : ℤ) (s : RmFile D) → Same s (fetch_page_handle p s).0
  unfolding fetch_page_handle
  fetch-Same p s = elim (Bool-cases (page_out p s.hdr.num_pages)) [
    | inl e ↦ rw e (Same-refl s)
    | inr e ↦ elim (Bool-cases (s.grants s.calls)) [
      | inl g ↦ rw (e, g) (record { hdr = refl; grants = refl })
      | inr g ↦ rw (e, g) (record { hdr = refl; grants = refl })
    ]
  ]

  get_record_in-Same : (z : ℤ) (n : ℕ) (s : RmFile D) → Same s (get_record_in z n s).0
  unfolding get_record_in
  get_record_in-Same z n s = elim (Bool-cases (missing n z s)) [
    | inl e ↦ rw e (record { hdr = refl; grants = refl })
    | inr e ↦ rw e (record { hdr = refl; grants = refl })
  ]

  pub get_record-Same : (rid : Rid) (s : RmFile D) → Same s (get_record rid s).0
  unfolding get_record
  get_record-Same rid s =
      bind_pair-Same s (fetch_page_handle rid.page_no s) _ (fetch-Same rid.page_no s)
        (λ n t. get_record_in-Same rid.slot_no n t)

  next_loop-Same : (rounds n : ℕ) (z : ℤ) (s : RmFile D) → Same s (next_loop rounds n z s).0
  unfolding next_loop next_slot
  next_loop-Same zero n z s = Same-refl s
  next_loop-Same (suc rounds) n z s =
      bind_pair-Same s (fetch_page_handle (pos n) s) _ (fetch-Same (pos n) s) (λ m t.
        bind_pair-Same t (next_slot m z t) (stop_or n (next_loop rounds (n + 1) (negsuc 0)))
          (record { hdr = refl; grants = refl })
          (λ i u. elim (Bool-cases (ltb i u.hdr.num_records_per_page)) [
            | inl e ↦ rw e (Same-refl u)
            | inr e ↦ rw e (next_loop-Same rounds (n + 1) (negsuc 0) u)
          ]))

  pub next-Same : (rid : Rid) (s : RmFile D) → Same s (next rid s).0
  unfolding next next_from
  next-Same rid s = from_page rid.page_no
    where
      from_page : (p : ℤ) → Same s (next_from p rid.slot_no s).0
      from_page (pos n) = next_loop-Same (s.hdr.num_pages - n) n rid.slot_no s
      from_page (negsuc n) = Same-refl s
