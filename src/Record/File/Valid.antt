-- ===== src/Record/File/Valid.antt =====
-- The invariant of a table file, and the records that it holds.
use db2024_main.Common.{
  ℕ, Bool, Distinct, List, Option, elem, if◌then◌else◌, ltb, none, not, some, true, ◌&&◌, ◌<◌, ◌==◌,
  ◌≡◌,
}
use db2024_main.Record.Bitmap.{is_set}
use db2024_main.Record.File.{RmFile}
use db2024_main.Record.File.Page.{IsPage}
use db2024_main.Record.File.Chain.{Chain}

module _ {D : Type 0} where
  abbrev pub per_page : RmFile D → ℕ
  per_page s = s.hdr.num_records_per_page

  abbrev pub in_file : ℕ → RmFile D → Bool
  in_file n s = not (n == 0) && ltb n s.hdr.num_pages

  -- The record in a slot of a page, if there is one.
  unfoldable pub record_at : ℕ → ℕ → RmFile D → Option D
  record_at n i s =
      if in_file n s && (ltb i (per_page s) && is_set (s.pages n).bitmap i)
      then some ((s.pages n).slots i)
      else none

  -- Every page counts its records, the pages that are not full are linked from the file's header,
  -- each once, and the disk manager allocates the page behind the last.
  pub record IsValid (s : RmFile D) : Type 0 where
    pub free : List ℕ
    pub positive : 0 < per_page s
    pub has_header : 0 < s.hdr.num_pages
    pub numbered : s.next_page ≡ s.hdr.num_pages
    pub pages : (n : ℕ) → in_file n s ≡ true → IsPage (per_page s) (s.pages n)
    pub chain : Chain s.pages s.hdr.first_free_page_no free
    pub distinct : Distinct free
    pub listed :
        (n : ℕ) → elem n free ≡ true → (in_file n s ≡ true) × ((s.pages n).num_records < per_page s)
    pub room :
        (n : ℕ) → in_file n s ≡ true → (s.pages n).num_records < per_page s → elem n free ≡ true
