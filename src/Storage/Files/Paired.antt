-- ===== src/Storage/Files/Paired.antt =====
-- disk_manager.cpp: how the two tables of open files belong together.
use db2024_main.Common.{
  nat_eq, ℕ, Bool, Eq, Option, arith, beq_refl, erase, false, file_not_closed, file_not_found,
  insert, lookup, lookup-erase, lookup-insert, none, ok, raise, some, true, unix_error, ◌==◌, ◌≡◌,
}
use db2024_main.Storage.Files.{
  FileTable, open_file, close_found, close_file, destroy_file, get_file_name, get_file_fd,
}

module _ {P : Type 0} ⦃e : Eq P⦄ where
  -- A path is open under a descriptor exactly when the descriptor has the path, and only regular
  -- files are open.
  pub record IsPaired (s : FileTable P) : Type 0 where
    pub forth : (p : P) (fd : ℕ) → lookup p s.path2fd ≡ some fd → lookup fd s.fd2path ≡ some p
    pub back : (p : P) (fd : ℕ) → lookup fd s.fd2path ≡ some p → lookup p s.path2fd ≡ some fd
    pub regular : (p : P) (fd : ℕ) → lookup p s.path2fd ≡ some fd → s.files p ≡ true

  -- On paired tables, where the operating system opens an existing file that is not open, under a
  -- descriptor that is not in use, `open_file` returns the descriptor and keeps the tables
  -- paired; the descriptor then has the path, and the path can be neither opened a second time
  -- nor destroyed.
  pub open_file-IsPaired :
      (path : P) (fd : ℕ) (s : FileTable P)
      → IsPaired s
      → lookup fd s.fd2path ≡ none
      → s.files path ≡ true
      → lookup path s.path2fd ≡ none
      → (s2 : FileTable P) × (open_file (some fd) path s ≡ (s2, ok fd))
        × IsPaired s2
        × (get_file_name fd s2 ≡ (s2, ok path))
        × (get_file_fd none path s2 ≡ (s2, ok fd))
        × ((answer : Option ℕ) → open_file answer path s2 ≡ (s2, raise file_not_closed))
        × ((unlinked : Bool) → destroy_file unlinked path s2 ≡ (s2, raise file_not_closed))
  unfolding open_file get_file_name get_file_fd destroy_file
  open_file-IsPaired path fd s v fresh there closed =
      let s2 : FileTable P = record s {
        path2fd = insert path fd s.path2fd;
        fd2path = insert fd path s.fd2path;
      } in
      let at_path : lookup path s2.path2fd ≡ some fd = rw (lookup-insert, beq_refl path) in
      let at_fd : lookup fd s2.fd2path ≡ some path = rw (lookup-insert, beq_refl fd) in
      (
        s2,
        ground (arith, there, closed),
        record {
          forth = λ p d h. ground (
            arith,
            lookup-insert path p fd s.path2fd,
            lookup-insert fd d path s.fd2path,
            e.beq_iff path p,
            v.forth p d,
          );
          back = λ p d h. ground (
            arith,
            lookup-insert path p fd s.path2fd,
            lookup-insert fd d path s.fd2path,
            e.beq_iff path p,
            v.back p d,
          );
          regular = λ p d h.
              ground (arith, lookup-insert path p fd s.path2fd, e.beq_iff path p, v.regular p d);
        },
        rw at_fd,
        rw at_path,
        λ answer. rw (there, at_path),
        λ unlinked. rw (there, at_path),
      )

  -- `open_file` of a missing file, of an open file, and of one that the operating system does not
  -- open, throws and changes nothing.
  open_file-refused :
      (answer : Option ℕ) (path : P) (s : FileTable P)
      → (s.files path ≡ false → open_file answer path s ≡ (s, raise file_not_found))
        × ((fd : ℕ)
            → s.files path ≡ true
            → lookup path s.path2fd ≡ some fd
            → open_file answer path s ≡ (s, raise file_not_closed))
        × (s.files path ≡ true
            → lookup path s.path2fd ≡ none
            → open_file none path s ≡ (s, raise unix_error))
  unfolding open_file
  open_file-refused answer path s = (λ h. rw h, λ fd h k. rw (h, k), λ h k. rw (h, k))

  -- `close_file` of an open descriptor that the operating system closes forgets the descriptor and
  -- its path, no other, keeps the tables paired, and the file can then be destroyed.
  pub close_file-IsPaired :
      (path : P) (fd : ℕ) (s : FileTable P)
      → IsPaired s
      → lookup fd s.fd2path ≡ some path
      → (s2 : FileTable P) × (close_file true fd s ≡ (s2, ok tt))
        × IsPaired s2
        × (lookup fd s2.fd2path ≡ none)
        × (lookup path s2.path2fd ≡ none)
        × ((d : ℕ) → (fd == d) ≡ false → lookup d s2.fd2path ≡ lookup d s.fd2path)
        × ((destroy_file true path s2).1 ≡ ok tt)
  unfolding close_file destroy_file
  close_file-IsPaired path fd s v found =
      let s2 : FileTable P = record s {
        fd2path = erase fd s.fd2path;
        path2fd = erase path s.path2fd;
      } in
      let at_path : lookup path s2.path2fd ≡ none = rw (lookup-erase, beq_refl path) in
      let there : s.files path ≡ true = v.regular path fd (v.back path fd found) in
      (
        s2,
        rw (found, close_found),
        record {
          forth = λ p d h. ground (
            arith,
            lookup-erase path p s.path2fd,
            lookup-erase fd d s.fd2path,
            e.beq_iff path p,
            v.forth p d,
          );
          back = λ p d h. ground (
            arith,
            lookup-erase path p s.path2fd,
            lookup-erase fd d s.fd2path,
            e.beq_iff path p,
            v.back p d,
            v.back path fd found,
          );
          regular = λ p d h.
              ground (arith, lookup-erase path p s.path2fd, e.beq_iff path p, v.regular p d);
        },
        rw (lookup-erase, beq_refl fd),
        at_path,
        λ d ne. ground (arith, lookup-erase fd d s.fd2path),
        rw (there, at_path),
      )
