-- ===== src/Storage/Buffer/Invariant.antt =====
-- The buffer pool's invariant, and what a page holds for the pool's clients.
use db2024_main.Common.{
  ℕ, zero, suc, ◌+◌, ◌<◌, ◌≤◌, ◌≡◌, arith, true, false, Option, none, some, List, [], ◌∷◌, lookup,
  elem, remove, Distinct, length, Distinct-remove, elem-remove_self,
}
use db2024_main.Storage.Page.{PageId, page_id_eq, is_invalid}
use db2024_main.Replacer.{Replacer}
use db2024_main.Storage.Buffer.{Pool}

-- The content of a page as a client sees it: the frame's if the page is cached, else the disk's.
unfoldable pub view : {A State : Type 0} → PageId → Pool A State → Option A
view id s = elim (lookup id s.page_table) [
  | some f ↦ some (s.pages f).content
  | none ↦ s.disk.stored id
]

module _ {A : Type 0} (R : Replacer) where
  pub record IsConsistent (s : Pool A R.State) : Type 0 where
    -- The page table and the frames' ids agree.
    pub table_frame :
        (id : PageId) (f : ℕ)
        → lookup id s.page_table ≡ some f
        → ((s.pages f).id ≡ id) × (is_invalid id ≡ false) × (f < s.pool_size)
    pub frame_table :
        (f : ℕ)
        → f < s.pool_size
        → is_invalid (s.pages f).id ≡ false
        → lookup (s.pages f).id s.page_table ≡ some f
    -- The free frames are those that hold no page.
    pub free_frame :
        (f : ℕ) → elem f s.free_list ≡ true → (is_invalid (s.pages f).id ≡ true) × (f < s.pool_size)
    pub idle_free :
        (f : ℕ) → f < s.pool_size → is_invalid (s.pages f).id ≡ true → elem f s.free_list ≡ true
    pub free_distinct : Distinct s.free_list
    -- The replacer queues exactly the frames that hold an unpinned page.
    pub queued_frame :
        (f : ℕ)
        → elem f (R.order s.replacer) ≡ true
        → (is_invalid (s.pages f).id ≡ false) × ((s.pages f).pin_count ≡ 0) × (f < s.pool_size)
    pub unpinned_queued :
        (f : ℕ)
        → f < s.pool_size
        → is_invalid (s.pages f).id ≡ false
        → (s.pages f).pin_count ≡ 0
        → elem f (R.order s.replacer) ≡ true
    pub replacer_valid : R.IsValid s.replacer
    pub replacer_fits : s.pool_size ≤ R.max_size s.replacer
    -- An unpinned page that is not dirty is on disk.
    pub clean_stored :
        (f : ℕ)
        → f < s.pool_size
        → is_invalid (s.pages f).id ≡ false
        → (s.pages f).pin_count ≡ 0
        → (s.pages f).is_dirty ≡ false
        → s.disk.stored (s.pages f).id ≡ some (s.pages f).content

length-remove_lem : (a : ℕ) (xs : List ℕ) → length xs ≤ length (remove a xs) + 1
unfolding remove
length-remove_lem a [] = omega arith
length-remove_lem a (x ∷ xs) = ground (arith, length-remove_lem a xs)

elem_of-remove : (a b : ℕ) (xs : List ℕ) → elem a (remove b xs) ≡ true → elem a xs ≡ true
unfolding elem remove
elem_of-remove a b [] h = cc
elem_of-remove a b (x ∷ xs) h = ground (arith, elem_of-remove a b xs)

-- Distinct numbers below a bound are no more than the bound says.
pub length-le_of_below :
    (n : ℕ) (xs : List ℕ) → Distinct xs → ((a : ℕ) → elem a xs ≡ true → a < n) → length xs ≤ n
unfolding elem
length-le_of_below zero [] d h = omega arith
length-le_of_below zero (x ∷ xs) d h = absurd (ground (arith, h x))
length-le_of_below (suc n) xs d h = omega (
  arith,
  length-remove_lem n xs,
  length-le_of_below n (remove n xs) (Distinct-remove n xs d)
      (λ a m. ground (arith, h a, elem_of-remove a n xs, elem-remove_self n xs d)),
)
