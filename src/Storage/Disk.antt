-- ===== src/Storage/Disk.antt =====
-- storage/disk_manager.cpp: pages on disk and the allocation of page numbers. The operating system
-- answers a `write` in full exactly for the pages that `writable` names, `torn` is what the file holds
-- of a page after another write of it, and `stored` is what the files hold: a `read` past the end of
-- a file comes back short.
use db2024_main.Common.{
  ℕ, ◌+◌, Bool, true, false, Option, none, some, pos, negsuc, ltb, if◌then◌else◌, ◌==◌, unix_error,
  internal_error, assertion_failed, Result, ok, raise, M,
}
use db2024_main.Storage.Page.{PageId, page_same}

pub record Disk (A : Type 0) : Type 0 where
  pub stored : PageId → Option A
  pub writable : PageId → Bool
  pub torn : PageId → A → Option A
  pub fd2pageno : ℕ → ℕ

-- `lseek` fails at a negative offset.
unfoldable pub seek_fails : PageId → Bool
seek_fails id = elim id.page_no [ pos n ↦ false | negsuc n ↦ true ]

abbrev pub max_fd : ℕ
max_fd = 8192

module _ {A : Type 0} where
  unfoldable pub store : PageId → A → Disk A → Disk A
  store id a d = record d { stored = λ k. if page_same id k then some a else d.stored k }

  -- A `write` that comes back short or fails can have changed a part of the page.
  unfoldable pub tear : PageId → A → Disk A → Disk A
  tear id a d = record d { stored = λ k. if page_same id k then d.torn id a else d.stored k }

  unfoldable pub write_page : PageId → A → M (Disk A) (Unit {0})
  unfolding seek_fails store tear
  write_page id a d =
      if seek_fails id
      then (d, raise unix_error)
      else if d.writable id
      then (store id a d, ok tt)
      else (tear id a d, raise internal_error)

  unfoldable pub read_found : Option A → Result A
  read_found none = raise internal_error
  read_found (some a) = ok a

  unfoldable pub read_page : PageId → M (Disk A) A
  unfolding seek_fails read_found
  read_page id d = if seek_fails id then (d, raise unix_error) else (d, read_found (d.stored id))

  unfoldable pub allocate_page : ℕ → M (Disk A) ℕ
  allocate_page fd d =
      if ltb fd max_fd
      then (
        record d { fd2pageno = λ k. if fd == k then d.fd2pageno fd + 1 else d.fd2pageno k },
        ok (d.fd2pageno fd),
      )
      else (d, raise assertion_failed)

  abbrev pub set_fd2pageno : ℕ → ℕ → Disk A → Disk A
  set_fd2pageno fd start_page_no d = record d {
    fd2pageno = λ k. if fd == k then start_page_no else d.fd2pageno k;
  }

  abbrev pub get_fd2pageno : ℕ → Disk A → ℕ
  get_fd2pageno fd d = d.fd2pageno fd
