-- ===== src/Index/Node/Remove.antt =====
-- `remove` of a node whose keys are sorted, as a change of what `leaf_lookup` finds.
use db2024_main.Common.{
  ℕ, Bool-cases, ap, arith, if◌then◌else◌, inl, inr, ltb, ltb→lt, refl, some, true, ◌+◌, ◌-◌, ◌<◌,
  ◌≡◌, ◌≤◌, ltb_false→le, sym, ◌∙◌, false, is_some, none, subst, ◌≢◌,
}
use db2024_main.Index.Order.{KeyOrder, same_trans, same_sym}
use db2024_main.Index.Node.{IxNode, move, lower_bound, found_at, leaf_lookup, erase_pair, remove}
use db2024_main.Index.Node.Sorted.{IsSorted, IsAt, at_lower_bound, leaf_lookup_lem, entry_cases}
use db2024_main.Index.Node.Search.{around}

module _ {K V : Type 0} (o : KeyOrder K) where
  -- `m` is `n` without the entry at the place `p`.
  record Closed (p : ℕ) (n m : IxNode K V) : Type 0 where
    size : m.num_key + 1 ≡ n.num_key
    before : (i : ℕ) → i < p → (m.keys i ≡ n.keys i) × (m.rids i ≡ n.rids i)
    behind :
        (i : ℕ) → p ≤ i → i < m.num_key → (m.keys i ≡ n.keys (i + 1)) × (m.rids i ≡ n.rids (i + 1))

  erase_pair-Closed :
      (p : ℕ) (n : IxNode K V)
      → p < n.num_key
      → (m : IxNode K V) × (erase_pair o p n ≡ some m) × Closed p n m
  unfolding erase_pair
  erase_pair-Closed p n lt =
      let m : IxNode K V = record n {
        num_key = n.num_key - 1;
        keys = move p (p + 1) (n.num_key - p - 1) n.keys;
        rids = move p (p + 1) (n.num_key - p - 1) n.rids;
      } in
      (
        m,
        ground (arith, lt),
        record {
          size = omega arith;
          before = λ i lt. (ground arith, ground arith);
          behind = λ i a b.
              let e : p + 1 + (i - p) ≡ i + 1 = omega arith in
              (ground (arith, ap n.keys e), ground (arith, ap n.rids e));
        },
      )

  module _ (p : ℕ) (key : K) (n m : IxNode K V) (t : Closed p n m) (s : IsSorted o n)
      (here : IsAt o p key n) where
    closed-IsSorted : IsSorted o m
    closed-IsSorted i j lt in_use = elim (Bool-cases (ltb j p)) [
      | inl j_low ↦
          rw ((t.before i (ground arith)).0, (t.before j (ltb→lt _ _ j_low)).0)
            (s i j lt (omega (arith, t.size)))
      | inr j_high ↦
          rw ((t.behind j (ltb_false→le _ _ j_high) in_use).0) (elim (Bool-cases (ltb i p)) [
            | inl i_low ↦
                rw ((t.before i (ltb→lt _ _ i_low)).0)
                  (s i (j + 1) (omega arith) (omega (arith, t.size)))
            | inr i_high ↦
                rw ((t.behind i (ltb_false→le _ _ i_high) (omega arith)).0)
                  (s (i + 1) (j + 1) (omega arith) (omega (arith, t.size)))
          ])
    ]

    -- An entry that is left was there before, and does not have the key.
    left_over :
        (k : K) (i : ℕ) → IsAt o i k m → (j : ℕ) × IsAt o j k n × (j ≢ p) × (m.rids i ≡ n.rids j)
    left_over k i found = elim (Bool-cases (ltb i p)) [
      | inl low ↦
          let same = t.before i (ltb→lt _ _ low) in
          (
            i,
            (omega (arith, t.size, found.0), sym (ap (λ x. o.same x k) same.0) ∙ found.1),
            ground arith,
            same.1,
          )
      | inr high ↦
          let same = t.behind i (ltb_false→le _ _ high) found.0 in
          (
            i + 1,
            (omega (arith, t.size, found.0), sym (ap (λ x. o.same x k) same.0) ∙ found.1),
            ground arith,
            same.1,
          )
    ]

    kept : (k : K) (i : ℕ) → IsAt o i k n → i ≢ p → (j : ℕ) × IsAt o j k m × (m.rids j ≡ n.rids i)
    kept k i found away = elim (around p i) [
      | inl low ↦
          let same = t.before i low in
          (i, (omega (arith, t.size, here.0), rw (same.0) found.1), same.1)
      | inr (inl bad) ↦ absurd (away bad)
      | inr (inr (j, e, ge)) ↦
          let same = t.behind j ge (omega (arith, t.size, found.0)) in
          (
            j,
            (omega (arith, t.size, found.0), rw (same.0, sym e) found.1),
            same.1 ∙ ap n.rids (sym e),
          )
    ]

    closed_lookup : (k : K) → leaf_lookup o k m ≡ (if o.same key k then none else leaf_lookup o k n)
    closed_lookup k =
        let sm = closed-IsSorted in
        elim (Bool-cases (o.same key k)) [
          | inl same ↦ rw same (
              (leaf_lookup_lem o k m sm).1 (λ i found.
                let (j, there, away, r) = left_over k i found in
                let p_k : IsAt o p k n = (here.0, same_trans o (n.keys p) key k here.1 same) in
                away (sym (at_lower_bound o k n j s there) ∙ at_lower_bound o k n p s p_k)))
          | inr other ↦ rw other (elim (entry_cases o k n s) [
            | inl (i, found, result) ↦
                let away : i ≢ p = λ e.
                  let at_p : o.same (n.keys p) k ≡ true =
                    subst (λ x. o.same (n.keys x) k ≡ true) e found.1 in
                  let bad = same_trans o key (n.keys p) k (same_sym o (n.keys p) key here.1) at_p in
                  cc (bad, other) in
                let (j, there, r) = kept k i found away in
                (leaf_lookup_lem o k m sm).0 j there ∙ ap some r ∙ sym result
            | inr (absent, result) ↦
                (leaf_lookup_lem o k m sm).1
                  (λ i found. let (j, there, away, r) = left_over k i found in absent j there)
                ∙ sym result
          ])
        ]

  -- On sorted keys `remove` takes out the entry with the key: the key finds nothing, every other
  -- key finds what it found before, the keys stay sorted, and the size goes down by one exactly if
  -- there was such an entry.
  pub remove_lem :
      (key : K) (n : IxNode K V)
      → IsSorted o n
      → (m : IxNode K V) × (remove o key n ≡ some m)
        × IsSorted o m
        × ((k : K) → leaf_lookup o k m ≡ (if o.same key k then none else leaf_lookup o k n))
        × (m.num_key + (if is_some (leaf_lookup o key n) then 1 else 0) ≡ n.num_key)
  unfolding remove
  remove_lem key n s =
      let p = lower_bound o key n in
      elim (entry_cases o key n s) [
        | inl (i, found, result) ↦
            let here : IsAt o p key n =
              subst (λ x. IsAt o x key n) (sym (at_lower_bound o key n i s found)) found in
            let hit : found_at o p key n ≡ true = ground (arith, here) in
            let (m, erased, t) = erase_pair-Closed p n here.0 in
            (
              m,
              rw hit erased,
              closed-IsSorted p key n m t s here,
              λ k. closed_lookup p key n m t s here k,
              rw result (t.size),
            )
        | inr (absent, result) ↦
            let missed : found_at o p key n ≡ false = elim (Bool-cases (found_at o p key n)) [
              | inl found ↦ absurd (absent p (ground arith))
              | inr missed ↦ missed
            ] in
            (
              n,
              rw missed refl,
              s,
              λ k. elim (Bool-cases (o.same key k)) [
                | inl same ↦ rw same (
                    (leaf_lookup_lem o k n s).1 (λ i found.
                      absent i
                        (found.0, same_trans o (n.keys i) k key found.1 (same_sym o key k same))))
                | inr other ↦ rw other refl
              ],
              rw result (omega arith),
            )
      ]
