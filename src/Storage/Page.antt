-- ===== src/Storage/Page.antt =====
-- storage/page.h: `PageId` and `Page`, over the type of a page's content.
use db2024_main.Common.{
  ℕ, ◌≡◌, ◌↔◌, Bool, true, ◌&&◌, ◌==◌, ℤ, minus_one, int_eq, int_eq_iff, Eq, arith,
}

-- INVALID_PAGE_ID of common/config.h.
abbrev pub invalid_page_id : ℤ
invalid_page_id = minus_one

pub record PageId : Type 0 where
  pub fd : ℕ
  pub page_no : ℤ

-- `operator==` of `PageId`.
unfoldable pub page_same : PageId → PageId → Bool
page_same x y = x.fd == y.fd && int_eq x.page_no y.page_no

pub page_same_iff : (x y : PageId) → (page_same x y ≡ true) ↔ (x ≡ y)
unfolding page_same
page_same_iff x y = ground (arith, int_eq_iff x.page_no y.page_no)

instance abbrev pub page_id_eq : Eq PageId
page_id_eq = record { beq = page_same; beq_iff = page_same_iff }

-- The test `page_no == INVALID_PAGE_ID`.
unfoldable pub is_invalid : PageId → Bool
is_invalid id = int_eq id.page_no invalid_page_id

-- `id_`, `data_`, `is_dirty_` and `pin_count_`.
pub record Page (A : Type 0) : Type 0 where
  pub id : PageId
  pub content : A
  pub is_dirty : Bool
  pub pin_count : ℕ
