-- ===== src/Storage/Files/Tests.antt =====
-- Two files, of which one is open. A path is a number here.
use db2024_main.Common.{
  nat_eq, ℕ, Bool, Option, [], arith, false, file_not_closed, lookup, none, ok, raise, refl, some,
  true, ◌==◌, ◌||◌, ◌∷◌, ◌≡◌,
}
use db2024_main.Storage.Files.{
  FileTable, open_file, close_file, destroy_file, get_file_name, get_file_fd,
}
use db2024_main.Storage.Files.Paired.{IsPaired, open_file-IsPaired, close_file-IsPaired}

abbrev table : FileTable ℕ
table = record { path2fd = (4, 3) ∷ []; fd2path = (3, 4) ∷ []; files = λ p. p == 4 || p == 5 }

table-IsPaired : IsPaired table
unfolding lookup
table-IsPaired = record {
  forth = λ p fd h. ground arith;
  back = λ p fd h. ground arith;
  regular = λ p fd h. ground arith;
}

open_file-IsPaired_example :
    (s2 : FileTable ℕ) × (open_file (some 6) 5 table ≡ (s2, ok 6))
    × IsPaired s2
    × (get_file_name 6 s2 ≡ (s2, ok 5))
    × (get_file_fd none 5 s2 ≡ (s2, ok 6))
    × ((answer : Option ℕ) → open_file answer 5 s2 ≡ (s2, raise file_not_closed))
    × ((unlinked : Bool) → destroy_file unlinked 5 s2 ≡ (s2, raise file_not_closed))
unfolding lookup
open_file-IsPaired_example = open_file-IsPaired 5 6 table table-IsPaired refl refl refl

close_file-IsPaired_example :
    (s2 : FileTable ℕ) × (close_file true 3 table ≡ (s2, ok tt))
    × IsPaired s2
    × (lookup 3 s2.fd2path ≡ none)
    × (lookup 4 s2.path2fd ≡ none)
    × ((d : ℕ) → (3 == d) ≡ false → lookup d s2.fd2path ≡ lookup d table.fd2path)
    × ((destroy_file true 4 s2).1 ≡ ok tt)
unfolding lookup
close_file-IsPaired_example = close_file-IsPaired 4 3 table table-IsPaired refl
