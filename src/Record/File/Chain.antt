-- ===== src/Record/File/Chain.antt =====
-- The list of pages with free slots, linked through `next_free_page_no`.
use db2024_main.Common.{ℕ, List, [], arith, elem, false, pos, ℤ, ◌==◌, ◌∷◌, ◌≡◌, true, ◌∙◌}
use db2024_main.Record.Layout.{rm_no_page}
use db2024_main.Record.File.{RmPage, with_page}

module _ {D : Type 0} where
  -- From the page number `z` the links lead through the pages of the list and end.
  abbrev pub Chain : (ℕ → RmPage D) → ℤ → List ℕ → Type 0
  Chain pages z [] = z ≡ rm_no_page
  Chain pages z (n ∷ l) = (z ≡ pos n) × Chain pages (pages n).next_free_page_no l

  -- A chain survives a write to a page that is not on it.
  pub Chain-write :
      (pages : ℕ → RmPage D) (z : ℤ) (l : List ℕ) (n : ℕ) (p : RmPage D)
      → elem n l ≡ false
      → Chain pages z l
      → Chain (with_page n p pages) z l
  unfolding elem
  Chain-write pages z [] n p out c = c
  Chain-write pages z (m ∷ l) n p out c =
      let other : (n == m) ≡ false = ground arith in
      rw other (c.0, Chain-write pages (pages m).next_free_page_no l n p (ground arith) c.1)

  -- A chain depends on the links of its pages and on where it starts.
  pub Chain-same :
      (p q : ℕ → RmPage D) (z y : ℤ) (l : List ℕ)
      → y ≡ z
      → ((m : ℕ) → elem m l ≡ true → (q m).next_free_page_no ≡ (p m).next_free_page_no)
      → Chain p z l
      → Chain q y l
  unfolding elem
  Chain-same p q z y [] e h c = e ∙ c
  Chain-same p q z y (n ∷ l) e h c = (
    e ∙ c.0,
    Chain-same p q (p n).next_free_page_no (q n).next_free_page_no l (h n (ground arith))
        (λ m i. h m (ground arith)) c.1,
  )
