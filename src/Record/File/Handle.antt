-- ===== src/Record/File/Handle.antt =====
-- `fetch_page_handle`.
use db2024_main.Common.{ℕ, arith, negsuc, ok, pos, true, ℤ, ◌≡◌}
use db2024_main.Record.File.{RmFile, pin, fetch_page_handle}
use db2024_main.Record.File.Valid.{in_file}

module _ {D : Type 0} where
  -- A handle is on a page of the file, which is pinned.
  pub fetch_page_handle-ok :
      (z : ℤ) (s s1 : RmFile D) (n : ℕ)
      → fetch_page_handle z s ≡ (s1, ok n)
      → (z ≡ pos n) × (s1 ≡ pin n s) × (in_file n s ≡ true)
  unfolding fetch_page_handle
  fetch_page_handle-ok (pos m) s s1 n h = ground arith
  fetch_page_handle-ok (negsuc m) s s1 n h = ground arith

  -- A page of the file for which the pool has a frame is fetched.
  pub fetch_page_handle-granted :
      (n : ℕ) (s : RmFile D)
      → in_file n s ≡ true
      → s.grants s.calls ≡ true
      → fetch_page_handle (pos n) s ≡ (pin n s, ok n)
  unfolding fetch_page_handle
  fetch_page_handle-granted n s h g = ground arith
