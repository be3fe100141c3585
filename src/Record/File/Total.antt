-- ===== src/Record/File/Total.antt =====
-- rm_file_handle.cpp: when `insert_record` returns.
use db2024_main.Common.{
  ℕ, Bool-cases, false, inl, inr, int_eq, ok, raise, true, ◌≡◌, List, arith, lt→ltb, negsuc, pos,
  subst, sym, ℤ, ◌∷◌, if◌then◌else◌, refl, ◌+◌,
}
use db2024_main.Record.Bitmap.{first_bit}
use db2024_main.Record.Layout.{rm_no_page}
use db2024_main.Record.File.{
  Rid, RmFile, pin, page_out, create_new_page_handle, refused_fetch, refusal_error, pages_left,
  allocated, fetch_page_handle, create_page_handle, insert_in, insert_record,
}
use db2024_main.Record.File.Page.{first_bit_free}
use db2024_main.Record.File.Valid.{IsValid, per_page, in_file}
use db2024_main.Record.File.Handle.{fetch_page_handle-granted}
use db2024_main.Record.File.Open.{open_handle, head-Chain, grown}
use db2024_main.Record.File.Insert.{head_listed, inserted}

module _ {D : Type 0} (zeros : D) where
  fetched :
      (n : ℕ) (z : ℤ) (s : RmFile D)
      → z ≡ pos n
      → in_file n s ≡ true
      → s.grants s.calls ≡ true
      → fetch_page_handle z s ≡ (pin n s, ok n)
  fetched n z s e h g =
      subst (λ x. fetch_page_handle x s ≡ (pin n s, ok n)) (sym e)
        (fetch_page_handle-granted n s h g)

  fetch_refused :
      (n : ℕ) (z : ℤ) (s : RmFile D)
      → z ≡ pos n
      → in_file n s ≡ true
      → s.grants s.calls ≡ false
      → fetch_page_handle z s ≡ (refused_fetch s, raise (refusal_error (s.refusals s.calls)))
  unfolding fetch_page_handle page_out
  fetch_refused n (pos m) s e h g = ground arith
  fetch_refused n (negsuc m) s e h g = cc (e)

  opens :
      (s : RmFile D)
      → IsValid s
      → s.grants s.calls ≡ true
      → (n : ℕ) × (s1 : RmFile D) × (create_page_handle zeros s ≡ (s1, ok n))
  unfolding create_page_handle grown
  opens s v g = elim (Bool-cases (int_eq s.hdr.first_free_page_no rm_no_page)) [
    | inl empty ↦ (s.next_page, grown zeros s, rw (empty, g))
    | inr more ↦
        let (n, rest, e, l) =
          head-Chain zeros s.pages s.hdr.first_free_page_no v.free v.chain more in
        let inside = (v.listed n (head_listed zeros n rest v.free l)).0 in
        (n, pin n s, rw more (fetched n s.hdr.first_free_page_no s e inside g))
  ]

  -- What a refused call leaves: one for a new page if no page has a free slot.
  unfoldable pub refused_open_of : RmFile D → RmFile D
  refused_open_of s = record s {
    calls = s.calls + 1;
    pages = pages_left (s.refusals s.calls) s.pages;
    next_page =
        if int_eq s.hdr.first_free_page_no rm_no_page
        then allocated (s.refusals s.calls) s.next_page
        else s.next_page;
  }

  refused_open :
      (s : RmFile D)
      → IsValid s
      → s.grants s.calls ≡ false
      → create_page_handle zeros s ≡ (refused_open_of s, raise (refusal_error (s.refusals s.calls)))
  unfolding create_page_handle refused_open_of create_new_page_handle
  refused_open s v g = elim (Bool-cases (int_eq s.hdr.first_free_page_no rm_no_page)) [
    | inl empty ↦ rw (empty, g) refl
    | inr more ↦
        let (n, rest, e, l) =
          head-Chain zeros s.pages s.hdr.first_free_page_no v.free v.chain more in
        let inside = (v.listed n (head_listed zeros n rest v.free l)).0 in
        rw more (fetch_refused n s.hdr.first_free_page_no s e inside g)
  ]

  insert_in-total :
      (buf : D) (n : ℕ) (s : RmFile D) (v : IsValid s) (rest : List ℕ)
      → v.free ≡ n ∷ rest
      → (s2 : RmFile D) × (rid : Rid) × (insert_in zeros buf n s ≡ (s2, ok rid))
  unfolding insert_in inserted
  insert_in-total buf n s v rest head =
      let listed = v.listed n (head_listed zeros n rest v.free head) in
      let i = first_bit false (s.pages n).bitmap (per_page s) in
      let (lt, new) =
        first_bit_free (per_page s) (s.pages n).bitmap
          (omega (arith, listed.1, (v.pages n listed.0).counted)) in
      (inserted zeros n i buf s, record { page_no = pos n; slot_no = pos i }, rw (lt→ltb _ _ lt))

  -- On a valid file `insert_record` returns a record id if the buffer pool grants the page. If it
  -- does not, the insert throws the pool's error, or `InternalError` for the null pointer; the
  -- file's header and pins stay as they are, its pages too for the null pointer, and only a throw of
  -- `new_page`, when no page has a free slot, leaves the file's page counter one higher.
  pub insert_record-total :
      (buf : D) (s : RmFile D)
      → IsValid s
      → (s.grants s.calls ≡ true
          → (s2 : RmFile D) × (rid : Rid) × (insert_record zeros buf s ≡ (s2, ok rid)))
        × (s.grants s.calls ≡ false
            → insert_record zeros buf s ≡ (
              record s {
                calls = s.calls + 1;
                pages = pages_left (s.refusals s.calls) s.pages;
                next_page =
                    if int_eq s.hdr.first_free_page_no rm_no_page
                    then allocated (s.refusals s.calls) s.next_page
                    else s.next_page;
              },
              raise (refusal_error (s.refusals s.calls)),
            ))
  unfolding insert_record refused_open_of
  insert_record-total buf s v = (
    λ g.
        let (n, s1, opened) = opens s v g in
        let o = open_handle zeros s s1 n v opened in
        let (s2, rid, added) = insert_in-total buf n s1 (o.valid) o.rest o.head in
        (s2, rid, rw opened added),
    λ g. rw (refused_open s v g),
  )
