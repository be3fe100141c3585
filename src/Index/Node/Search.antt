-- ===== src/Index/Node/Search.antt =====
-- The binary search.
use db2024_main.Common.{
  ℕ, Bool, Bool-cases, arith, false, inl, inr, leb, ltb, ltb_false→le, ltb→lt, suc, true, zero, ◌+◌,
  ◌/◌, ◌<◌, ◌≡◌, ◌≤◌, ◌-◌, ◌==◌, ◌⊎◌,
}
use db2024_main.Index.Node.{bound_loop}

-- With a test that passes up to some place and fails from there on, the loop finds the place.
pub bound_loop_lem :
    (test : ℕ → Bool) (fuel left right : ℕ)
    → right ≤ left + fuel
    → left ≤ right
    → ((i j : ℕ) → i ≤ j → j < right → test j ≡ true → test i ≡ true)
    → (left ≤ bound_loop test fuel left right)
      × (bound_loop test fuel left right ≤ right)
      × ((i : ℕ) → left ≤ i → i < bound_loop test fuel left right → test i ≡ true)
      × ((i : ℕ) → bound_loop test fuel left right ≤ i → i < right → test i ≡ false)
unfolding bound_loop
bound_loop_lem test zero left right enough le mono =
    (omega arith, omega arith, λ i a b. absurd (omega arith), λ i a b. absurd (omega arith))
bound_loop_lem test (suc fuel) left right enough le mono =
    let mid = (left + right) / 2 in
    elim (Bool-cases (ltb left right)) [
      | inr done ↦ rw done (
          let same = ltb_false→le _ _ done in
          (omega arith, omega arith, λ i a b. absurd (omega arith), λ i a b. absurd (omega arith)))
      | inl more ↦
          let lt = ltb→lt _ _ more in
          elim (Bool-cases (test mid)) [
            | inl pass ↦
                let (low, high, passed, failed) =
                  bound_loop_lem test fuel (mid + 1) right (omega arith) (omega arith) mono in
                rw (more, pass)
                  (
                    omega arith,
                    high,
                    λ i a b. elim (Bool-cases (leb i mid)) [
                      | inl here ↦ mono i mid (ground arith) (omega arith) pass
                      | inr there ↦ passed i (ground arith) b
                    ],
                    failed,
                  )
            | inr fail ↦
                let (low, high, passed, failed) =
                  bound_loop_lem test fuel left mid (omega arith) (omega arith)
                    (λ i j a b. mono i j a (omega arith)) in
                rw (more, fail)
                  (
                    low,
                    omega arith,
                    passed,
                    λ i a b. elim (Bool-cases (ltb i mid)) [
                      | inl here ↦ failed i a (ltb→lt _ _ here)
                      | inr there ↦ elim (Bool-cases (test i)) [
                        | inl bad ↦ cc (mono mid i (ground arith) b bad, fail)
                        | inr good ↦ good
                      ]
                    ],
                  )
          ]
    ]

-- An index is before a place, at it, or the one after an index that is not before it.
pub around : (p i : ℕ) → (i < p) ⊎ ((i ≡ p) ⊎ ((j : ℕ) × (i ≡ j + 1) × (p ≤ j)))
around p i = elim (Bool-cases (ltb i p)) [
  | inl lt ↦ inl (ltb→lt _ _ lt)
  | inr ge ↦ elim (Bool-cases (i == p)) [
    | inl here ↦ inr (inl (ground arith))
    | inr away ↦ inr (inr (i - 1, ground arith, ground arith))
  ]
]
