-- ===== src/Record/Bitmap.antt =====
-- record/bitmap.h. A bitmap is its bytes by index; `char` is read as an unsigned byte, since only
-- the low eight bits of each result are kept or tested.
pub mod Bytes
pub mod Slots
mod Tests
use Prim.Native.Nat.{bit_and, bit_or}
use db2024_main.Common.{
  ℕ, ℤ, pos, negsuc, Bool, false, if◌then◌else◌, ltb, not, suc, true, zero, ◌%◌, ◌+◌, ◌-◌, ◌/◌,
  ◌==◌, ◌^◌,
}

abbrev pub bitmap_width : ℕ
bitmap_width = 8

abbrev pub bitmap_highest_bit : ℕ
bitmap_highest_bit = 0x80

abbrev pub Bytes : Type 0
Bytes = ℕ → ℕ

abbrev pub get_bucket : ℕ → ℕ
get_bucket p = p / bitmap_width

-- `BITMAP_HIGHEST_BIT >> (pos % BITMAP_WIDTH)`
abbrev pub get_bit : ℕ → ℕ
get_bit p = bitmap_highest_bit / 2 ^ (p % bitmap_width)

-- `memset(bm, 0, size)`
unfoldable pub init : ℕ → Bytes → Bytes
init size bm b = if ltb b size then 0 else bm b

unfoldable pub set_bit : ℕ → Bytes → Bytes
set_bit p bm b = if get_bucket p == b then bit_or (bm b) (get_bit p) else bm b

-- `~` of a byte.
unfoldable pub reset_bit : ℕ → Bytes → Bytes
reset_bit p bm b = if get_bucket p == b then bit_and (bm b) (255 - get_bit p) else bm b

unfoldable pub is_set : Bytes → ℕ → Bool
is_set bm p = not (bit_and (bm (get_bucket p)) (get_bit p) == 0)

abbrev pub same_bit : Bool → Bool → Bool
same_bit true b = b
same_bit false b = not b

-- The loop of `next_bit` from `i` on, with the rounds that are left before `max_n`.
unfoldable pub next_loop : Bool → Bytes → ℕ → ℕ → ℕ
next_loop bit bm zero i = i
next_loop bit bm (suc rounds) i =
    let rest = next_loop bit bm rounds (i + 1) in if same_bit (is_set bm i) bit then i else rest

-- `curr + 1`, for `curr` at least -1.
abbrev pub after : ℤ → ℕ
after (pos n) = n + 1
after (negsuc n) = 0

-- When `curr + 1` is beyond `max_n` there are no rounds, and the result is `max_n`.
unfoldable pub next_bit : Bool → Bytes → ℕ → ℤ → ℕ
unfolding next_loop
next_bit bit bm max_n curr =
    if ltb (after curr) max_n then next_loop bit bm (max_n - after curr) (after curr) else max_n

unfoldable pub first_bit : Bool → Bytes → ℕ → ℕ
unfolding next_bit
first_bit bit bm max_n = next_bit bit bm max_n (negsuc 0)
