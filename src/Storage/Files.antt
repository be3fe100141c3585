-- ===== src/Storage/Files.antt =====
-- storage/disk_manager.cpp: the tables of open files. The answers of the operating system to
-- `open`, `close` and `unlink` are arguments; `files` says which regular files exist.
pub mod Paired
mod Tests
use db2024_main.Common.{
  nat_eq, ℕ, Bool, Eq, List, M, Option, erase, false, file_exists, file_not_closed, file_not_found,
  file_not_open, if◌then◌else◌, insert, is_some, lookup, none, ok, raise, some, true, unix_error,
}

-- The answer to `open(path, O_CREAT | O_EXCL | O_RDWR, …)`.
pub data Creation : Type 0 where
  created eexist other_failure : Creation

pub record FileTable (P : Type 0) : Type 0 where
  pub path2fd : List (P × ℕ)
  pub fd2path : List (ℕ × P)
  pub files : P → Bool

module _ {P : Type 0} ⦃e : Eq P⦄ where
  abbrev pub is_file : P → FileTable P → Bool
  is_file path s = s.files path

  abbrev pub with_file : P → Bool → FileTable P → FileTable P
  with_file path b s = record s { files = λ p. if e.beq path p then b else s.files p }

  -- The part of `create_file` behind `open`; `closed` answers `close`.
  unfoldable pub create_answered : Creation → Bool → P → M (FileTable P) (Unit {0})
  create_answered created closed path s =
      (with_file path true s, if closed then ok tt else raise unix_error)
  create_answered eexist closed path s = (s, raise file_exists)
  create_answered other_failure closed path s = (s, raise unix_error)

  unfoldable pub create_file : Creation → Bool → P → M (FileTable P) (Unit {0})
  unfolding create_answered
  create_file answer closed path s =
      if is_file path s then (s, raise file_exists) else create_answered answer closed path s

  unfoldable pub destroy_file : Bool → P → M (FileTable P) (Unit {0})
  destroy_file unlinked path s =
      if is_file path s
      then if is_some (lookup path s.path2fd)
        then (s, raise file_not_closed)
        else if unlinked
        then (with_file path false s, ok tt)
        else (s, raise unix_error)
      else (s, raise file_not_found)

  -- The part of `open_file` behind `open`; `none` is the answer -1.
  unfoldable pub open_answered : Option ℕ → P → M (FileTable P) ℕ
  open_answered none path s = (s, raise unix_error)
  open_answered (some fd) path s =
      (record s { path2fd = insert path fd s.path2fd; fd2path = insert fd path s.fd2path }, ok fd)

  unfoldable pub open_file : Option ℕ → P → M (FileTable P) ℕ
  unfolding open_answered
  open_file answer path s =
      if is_file path s
      then if is_some (lookup path s.path2fd)
        then (s, raise file_not_closed)
        else open_answered answer path s
      else (s, raise file_not_found)

  unfoldable pub close_found : Option P → Bool → ℕ → M (FileTable P) (Unit {0})
  close_found none closed fd s = (s, raise file_not_open)
  close_found (some path) closed fd s =
      if closed
      then (record s { fd2path = erase fd s.fd2path; path2fd = erase path s.path2fd }, ok tt)
      else (s, raise unix_error)

  unfoldable pub close_file : Bool → ℕ → M (FileTable P) (Unit {0})
  unfolding close_found
  close_file closed fd s = close_found (lookup fd s.fd2path) closed fd s

  unfoldable pub name_found : Option P → M (FileTable P) P
  name_found none s = (s, raise file_not_open)
  name_found (some path) s = (s, ok path)

  unfoldable pub get_file_name : ℕ → M (FileTable P) P
  unfolding name_found
  get_file_name fd s = name_found (lookup fd s.fd2path) s

  unfoldable pub fd_found : Option ℕ → Option ℕ → P → M (FileTable P) ℕ
  unfolding open_file
  fd_found none answer path s = open_file answer path s
  fd_found (some fd) answer path s = (s, ok fd)

  unfoldable pub get_file_fd : Option ℕ → P → M (FileTable P) ℕ
  unfolding fd_found
  get_file_fd answer path s = fd_found (lookup path s.path2fd) answer path s
