-- ===== src/Record/Bitmap/Bytes.antt =====
-- The bits of a byte, over all bytes by evaluation.
use Prim.Native.Nat.{bit_and, bit_or}
use db2024_main.Common.{
  ℕ, Bool, arith, false, ltb, ltb→lt, not, refl, suc, sym, true, zero, ◌&&◌, ◌-◌, ◌/◌, ◌<◌, ◌==◌,
  ◌^◌, ◌||◌, ◌≡◌,
}
use db2024_main.Record.Bitmap.{same_bit}

-- A test passes for every number under a bound.
passes : (ℕ → Bool) → ℕ → Bool
passes test zero = true
passes test (suc bound) = passes test bound && test bound

passes-at : (test : ℕ → Bool) (bound k : ℕ) → passes test bound ≡ true → k < bound → test k ≡ true
unfolding passes
passes-at test zero k all lt = absurd (omega arith)
passes-at test (suc bound) k all lt = ground (arith, passes-at test bound k)

same_bit_iff : (a b : Bool) → same_bit a b ≡ true → a ≡ b
same_bit_iff true b h = sym h
same_bit_iff false true h = cc (h)
same_bit_iff false false h = refl

abbrev pub bit_at : ℕ → ℕ → Bool
bit_at x i = not (bit_and x (0x80 / 2 ^ i) == 0)

abbrev or_test : ℕ → ℕ → ℕ → Bool
or_test x i j =
    same_bit (bit_at (bit_or x (0x80 / 2 ^ i)) j) ((i == j) || bit_at x j)
    && ltb (bit_or x (0x80 / 2 ^ i)) 256

abbrev and_test : ℕ → ℕ → ℕ → Bool
and_test x i j =
    same_bit (bit_at (bit_and x (255 - 0x80 / 2 ^ i)) j) (not (i == j) && bit_at x j)
    && ltb (bit_and x (255 - 0x80 / 2 ^ i)) 256

or_table : passes (λ i. passes (λ j. passes (λ x. or_test x i j) 256) 8) 8 ≡ true
unfolding passes
or_table = refl

and_table : passes (λ i. passes (λ j. passes (λ x. and_test x i j) 256) 8) 8 ≡ true
unfolding passes
and_table = refl

or_row : (x i j : ℕ) → x < 256 → i < 8 → j < 8 → or_test x i j ≡ true
or_row x i j hx hi hj = passes-at _ 256 x (passes-at _ 8 j (passes-at _ 8 i or_table hi) hj) hx

and_row : (x i j : ℕ) → x < 256 → i < 8 → j < 8 → and_test x i j ≡ true
and_row x i j hx hi hj = passes-at _ 256 x (passes-at _ 8 j (passes-at _ 8 i and_table hi) hj) hx

and_parts : (a b : Bool) → (a && b) ≡ true → (a ≡ true) × (b ≡ true)
and_parts a b h = ground arith

pub bit_at-or :
    (x i j : ℕ)
    → x < 256
    → i < 8
    → j < 8
    → (bit_at (bit_or x (0x80 / 2 ^ i)) j ≡ ((i == j) || bit_at x j))
      × (bit_or x (0x80 / 2 ^ i) < 256)
bit_at-or x i j hx hi hj =
    let (bits, byte) = and_parts _ _ (or_row x i j hx hi hj) in
    (same_bit_iff _ _ bits, ltb→lt _ _ byte)

pub bit_at-and :
    (x i j : ℕ)
    → x < 256
    → i < 8
    → j < 8
    → (bit_at (bit_and x (255 - 0x80 / 2 ^ i)) j ≡ (not (i == j) && bit_at x j))
      × (bit_and x (255 - 0x80 / 2 ^ i) < 256)
bit_at-and x i j hx hi hj =
    let (bits, byte) = and_parts _ _ (and_row x i j hx hi hj) in
    (same_bit_iff _ _ bits, ltb→lt _ _ byte)
