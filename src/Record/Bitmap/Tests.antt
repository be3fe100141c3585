-- ===== src/Record/Bitmap/Tests.antt =====
-- A bitmap whose first byte is 0x41: the slots 1 and 7.
use db2024_main.Common.{ℕ, arith, false, if◌then◌else◌, pos, true, ◌<◌, ◌==◌, ◌≡◌, ◌≤◌}
use db2024_main.Record.Bitmap.{Bytes, is_set, next_bit}
use db2024_main.Record.Bitmap.Slots.{IsBytes, next_bit-first}

abbrev two_set : Bytes
two_set b = if b == 0 then 0x41 else 0

two_set-IsBytes : IsBytes two_set
two_set-IsBytes b = ground arith

next_bit-first_example :
    (next_bit true two_set 16 (pos 1) ≤ 16)
    × (next_bit true two_set 16 (pos 1) < 16
        → (2 ≤ next_bit true two_set 16 (pos 1))
          × (is_set two_set (next_bit true two_set 16 (pos 1)) ≡ true))
    × ((j : ℕ) → 2 ≤ j → j < next_bit true two_set 16 (pos 1) → j < 16 → is_set two_set j ≡ false)
next_bit-first_example = next_bit-first true two_set 16 (pos 1)
