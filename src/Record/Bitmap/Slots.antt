-- ===== src/Record/Bitmap/Slots.antt =====
-- bitmap.h: a bitmap read as a set of slots.
use Prim.Native.Nat.{bit_and, bit_and-bitwise}
use db2024_main.Common.{
  ℕ, Bool, Bool-cases, arith, false, inl, inr, ltb, ltb_false→le, ltb→lt, not, suc, zero, ℤ, ◌&&◌,
  ◌*◌, ◌+◌, ◌-◌, ◌<◌, ◌==◌, ◌||◌, ◌≡◌, ◌≤◌, ◌%◌,
}
use db2024_main.Record.Bitmap.{
  Bytes, get_bucket, get_bit, init, set_bit, reset_bit, is_set, next_loop, after, next_bit,
}
use db2024_main.Record.Bitmap.Bytes.{bit_at-or, bit_at-and}

abbrev pub IsBytes : Bytes → Type 0
IsBytes bm = (b : ℕ) → bm b < 256

pub init-IsBytes : (size : ℕ) (bm : Bytes) → IsBytes bm → IsBytes (init size bm)
unfolding init
init-IsBytes size bm h b = ground (arith, h b)

-- Setting a bit sets that bit and no other, and bytes stay bytes.
pub is_set-set_bit :
    (p q : ℕ) (bm : Bytes)
    → IsBytes bm
    → (is_set (set_bit p bm) q ≡ ((p == q) || is_set bm q)) × IsBytes (set_bit p bm)
unfolding is_set set_bit
is_set-set_bit p q bm h = (
  ground (arith, bit_at-or (bm (get_bucket q)) (p % 8) (q % 8) (h (get_bucket q))),
  λ b. ground (arith, h b, bit_at-or (bm b) (p % 8) 0 (h b)),
)

-- Resetting a bit clears that bit and no other, and bytes stay bytes.
pub is_set-reset_bit :
    (p q : ℕ) (bm : Bytes)
    → IsBytes bm
    → (is_set (reset_bit p bm) q ≡ (not (p == q) && is_set bm q)) × IsBytes (reset_bit p bm)
unfolding is_set reset_bit
is_set-reset_bit p q bm h = (
  ground (arith, bit_at-and (bm (get_bucket q)) (p % 8) (q % 8) (h (get_bucket q))),
  λ b. ground (arith, h b, bit_at-and (bm b) (p % 8) 0 (h b)),
)

zero-bit_and : (b : ℕ) → bit_and 0 b ≡ 0
zero-bit_and b = bit_and-bitwise 0 b

-- After `init` no slot below the size is set.
pub is_set-init : (size p : ℕ) (bm : Bytes) → p < 8 * size → is_set (init size bm) p ≡ false
unfolding is_set init
is_set-init size p bm h = ground (arith, zero-bit_and (get_bit p))

next_loop_lem :
    (bit : Bool) (bm : Bytes) (rounds i : ℕ)
    → (i ≤ next_loop bit bm rounds i)
      × (next_loop bit bm rounds i ≤ i + rounds)
      × (next_loop bit bm rounds i < i + rounds → is_set bm (next_loop bit bm rounds i) ≡ bit)
      × ((j : ℕ) → i ≤ j → j < next_loop bit bm rounds i → is_set bm j ≡ not bit)
unfolding next_loop
next_loop_lem bit bm zero i =
    (omega arith, omega arith, λ h. absurd (omega arith), λ j h k. absurd (omega arith))
next_loop_lem bit bm (suc r) i =
    let (low, high, found, skipped) = next_loop_lem bit bm r (i + 1) in
    (ground arith, ground arith, λ h. ground arith, λ j h k. ground (arith, skipped j))

-- `next_bit` gives the first slot after `curr` whose bit is the given one, or `max_n` if there is
-- none below `max_n`.
pub next_bit-first :
    (bit : Bool) (bm : Bytes) (max_n : ℕ) (curr : ℤ)
    → (next_bit bit bm max_n curr ≤ max_n)
      × (next_bit bit bm max_n curr < max_n
          → (after curr ≤ next_bit bit bm max_n curr)
            × (is_set bm (next_bit bit bm max_n curr) ≡ bit))
      × ((j : ℕ)
          → after curr ≤ j
          → j < next_bit bit bm max_n curr
          → j < max_n
          → is_set bm j ≡ not bit)
unfolding next_bit
next_bit-first bit bm max_n curr =
    let (low, high, found, skipped) = next_loop_lem bit bm (max_n - after curr) (after curr) in
    elim (Bool-cases (ltb (after curr) max_n)) [
      | inl more ↦ rw more (
          let lt = ltb→lt _ _ more in
          (omega arith, λ h. (low, found (omega arith)), λ j h k m. skipped j h k))
      | inr done ↦ rw done (
          let le = ltb_false→le _ _ done in
          (omega arith, λ h. absurd (omega arith), λ j h k m. absurd (omega arith)))
    ]

-- Where all bytes are 0 no slot is set.
pub is_set-zeros : (bm : Bytes) (p : ℕ) → bm (get_bucket p) ≡ 0 → is_set bm p ≡ false
unfolding is_set
is_set-zeros bm p h = rw h (ground (arith, zero-bit_and (get_bit p)))
