-- ===== src/Record/File/Page.antt =====
-- One page: `num_records` counts the slots that its bitmap marks.
use db2024_main.Common.{
  ℕ, Bool-cases, arith, false, if◌then◌else◌, inl, inr, ltb, ltb_false→le, ltb→lt, negsuc, refl,
  suc, true, zero, ◌+◌, ◌<◌, ◌==◌, ◌≡◌, ◌≤◌, ◌∙◌,
}
use db2024_main.Record.Bitmap.{Bytes, set_bit, reset_bit, is_set, first_bit}
use db2024_main.Record.Bitmap.Slots.{IsBytes, is_set-set_bit, is_set-reset_bit, next_bit-first}
use db2024_main.Record.File.{RmPage, add_record, drop_record}

unfoldable pub count : ℕ → Bytes → ℕ
count zero bm = 0
count (suc n) bm = count n bm + (if is_set bm n then 1 else 0)

pub count-le : (n : ℕ) (bm : Bytes) → count n bm ≤ n
unfolding count
count-le zero bm = omega arith
count-le (suc n) bm = ground (arith, count-le n bm)

count_same :
    (n : ℕ) (a b : Bytes) → ((j : ℕ) → j < n → is_set a j ≡ is_set b j) → count n a ≡ count n b
unfolding count
count_same zero a b h = refl
count_same (suc n) a b h = ground (arith, h n, count_same n a b (λ j lt. h j (omega arith)))

pub count-set_bit :
    (n i : ℕ) (bm : Bytes)
    → IsBytes bm
    → i < n
    → is_set bm i ≡ false
    → count n (set_bit i bm) ≡ count n bm + 1
unfolding count
count-set_bit zero i bm h lt new = absurd (omega arith)
count-set_bit (suc n) i bm h lt new = elim (Bool-cases (i == n)) [
  | inl here ↦ ground (
    arith,
    (is_set-set_bit i n bm h).0,
    count_same n (set_bit i bm) bm (λ j lt. ground (arith, (is_set-set_bit i j bm h).0)),
  )
  | inr away ↦
      ground (arith, (is_set-set_bit i n bm h).0, count-set_bit n i bm h (ground arith) new)
]

pub count-reset_bit :
    (n i : ℕ) (bm : Bytes)
    → IsBytes bm
    → i < n
    → is_set bm i ≡ true
    → count n (reset_bit i bm) + 1 ≡ count n bm
unfolding count
count-reset_bit zero i bm h lt old = absurd (omega arith)
count-reset_bit (suc n) i bm h lt old = elim (Bool-cases (i == n)) [
  | inl here ↦ ground (
    arith,
    (is_set-reset_bit i n bm h).0,
    count_same n (reset_bit i bm) bm (λ j lt. ground (arith, (is_set-reset_bit i j bm h).0)),
  )
  | inr away ↦
      ground (arith, (is_set-reset_bit i n bm h).0, count-reset_bit n i bm h (ground arith) old)
]

count_full : (n : ℕ) (bm : Bytes) → ((j : ℕ) → j < n → is_set bm j ≡ true) → count n bm ≡ n
unfolding count
count_full zero bm h = refl
count_full (suc n) bm h = ground (arith, h n, count_full n bm (λ j lt. h j (omega arith)))

pub count_empty : (n : ℕ) (bm : Bytes) → ((j : ℕ) → j < n → is_set bm j ≡ false) → count n bm ≡ 0
unfolding count
count_empty zero bm h = refl
count_empty (suc n) bm h = ground (arith, h n, count_empty n bm (λ j lt. h j (omega arith)))

-- A page that is not full has a free slot, and `first_bit` finds it.
pub first_bit_free :
    (n : ℕ) (bm : Bytes)
    → count n bm < n
    → (first_bit false bm n < n) × (is_set bm (first_bit false bm n) ≡ false)
unfolding first_bit
first_bit_free n bm h =
    let (high, found, skipped) = next_bit-first false bm n (negsuc 0) in
    elim (Bool-cases (ltb (first_bit false bm n) n)) [
      | inl some_free ↦ (ltb→lt _ _ some_free, (found (ltb→lt _ _ some_free)).1)
      | inr none_free ↦
          let le = ltb_false→le _ _ none_free in
          absurd (omega (arith, count_full n bm (λ j lt. skipped j (omega arith) (omega arith) lt)))
    ]

module _ {D : Type 0} where
  pub record IsPage (n : ℕ) (p : RmPage D) : Type 0 where
    pub bytes : IsBytes p.bitmap
    pub counted : p.num_records ≡ count n p.bitmap

  pub add_record-IsPage :
      (zeros : D) (n i : ℕ) (buf : D) (p : RmPage D)
      → IsPage n p
      → i < n
      → is_set p.bitmap i ≡ false
      → IsPage n (add_record zeros i buf p)
  unfolding add_record
  add_record-IsPage zeros n i buf p v lt new = record {
    bytes = (is_set-set_bit i i p.bitmap v.bytes).1;
    counted = omega (arith, v.counted, count-set_bit n i p.bitmap v.bytes lt new);
  }

  pub drop_record-IsPage :
      (zeros : D) (n i : ℕ) (p : RmPage D)
      → IsPage n p
      → i < n
      → is_set p.bitmap i ≡ true
      → IsPage n (drop_record zeros i p)
  unfolding drop_record
  drop_record-IsPage zeros n i p v lt old = record {
    bytes = (is_set-reset_bit i i p.bitmap v.bytes).1;
    counted = omega (arith, v.counted, count-reset_bit n i p.bitmap v.bytes lt old);
  }

  -- What a page counts depends on its bitmap only.
  pub IsPage-same :
      (n k : ℕ) (p q : RmPage D)
      → k ≡ n
      → q.bitmap ≡ p.bitmap
      → q.num_records ≡ p.num_records
      → IsPage n p
      → IsPage k q
  IsPage-same n k p q e b c v = record { bytes = rw b v.bytes; counted = rw (e, b) (c ∙ v.counted) }
