-- ===== src/Index/Node/Insert.antt =====
-- `insert` of a node whose keys are sorted, as a change of what `leaf_lookup` finds.
use db2024_main.Common.{
  ℕ, Bool-cases, ap, arith, if◌then◌else◌, inl, inr, ltb, ltb→lt, refl, some, true, ◌+◌, ◌-◌, ◌<◌,
  ◌≡◌, ◌≤◌, ltb_false→le, sym, ◌∙◌, false, none,
}
use db2024_main.Index.Order.{KeyOrder}
use db2024_main.Index.Node.{
  IxNode, move, write_at, lower_bound, found_at, leaf_lookup, insert_pair, insert,
}
use db2024_main.Index.Node.Sorted.{
  IsSorted, IsAt, lower_bound_lem, at_lower_bound, leaf_lookup_lem, entry_cases,
}
use db2024_main.Index.Node.Search.{around}

module _ {K V : Type 0} (o : KeyOrder K) where
  -- `m` is `n` with one entry more, at the place `p`.
  record Spread (p : ℕ) (key : K) (value : V) (n m : IxNode K V) : Type 0 where
    size : m.num_key ≡ n.num_key + 1
    before : (i : ℕ) → i < p → (m.keys i ≡ n.keys i) × (m.rids i ≡ n.rids i)
    here : (m.keys p ≡ key) × (m.rids p ≡ value)
    behind :
        (i : ℕ) → p ≤ i → i < n.num_key → (m.keys (i + 1) ≡ n.keys i) × (m.rids (i + 1) ≡ n.rids i)

  insert_pair-Spread :
      (p : ℕ) (key : K) (value : V) (n : IxNode K V)
      → p ≤ n.num_key
      → n.num_key < n.max_size
      → (m : IxNode K V) × (insert_pair o p key value n ≡ some m) × Spread p key value n m
  unfolding insert_pair
  insert_pair-Spread p key value n le room =
      let m : IxNode K V = record n {
        num_key = n.num_key + 1;
        keys = write_at p key (move (p + 1) p (n.num_key - p) n.keys);
        rids = write_at p value (move (p + 1) p (n.num_key - p) n.rids);
      } in
      (
        m,
        ground (arith, le, room),
        record {
          size = refl;
          before = λ i lt. (ground arith, ground arith);
          here = (ground arith, ground arith);
          behind = λ i a b.
              let e : p + (i + 1 - (p + 1)) ≡ i = omega arith in
              (ground (arith, ap n.keys e), ground (arith, ap n.rids e));
        },
      )

  module _ (p : ℕ) (key : K) (value : V) (n m : IxNode K V) (t : Spread p key value n m)
      (s : IsSorted o n) (le : p ≤ n.num_key) (low : (i : ℕ) → i < p → o.less (n.keys i) key ≡ true)
      (high : (i : ℕ) → p ≤ i → i < n.num_key → o.less key (n.keys i) ≡ true) where
    spread-IsSorted : IsSorted o m
    spread-IsSorted i j lt in_use = elim (around p j) [
      | inl j_low ↦ rw ((t.before i (omega arith)).0, (t.before j j_low).0) (s i j lt (omega arith))
      | inr (inl j_here) ↦
          let here : m.keys j ≡ key = ap m.keys j_here ∙ t.here.0 in
          rw ((t.before i (omega arith)).0, here) (low i (omega arith))
      | inr (inr (j1, ej, j_high)) ↦
          let in_n : j1 < n.num_key = omega (arith, t.size) in
          let at_j : m.keys j ≡ n.keys j1 = ap m.keys ej ∙ (t.behind j1 j_high in_n).0 in
          rw at_j (elim (around p i) [
            | inl i_low ↦ rw ((t.before i i_low).0) (s i j1 (omega arith) in_n)
            | inr (inl i_here) ↦ rw (ap m.keys i_here ∙ t.here.0) (high j1 j_high in_n)
            | inr (inr (i1, ei, i_high)) ↦
                rw (ap m.keys ei ∙ (t.behind i1 i_high (omega arith)).0)
                  (s i1 j1 (omega arith) in_n)
          ])
    ]

    spread_lookup :
        (k : K)
        → IsSorted o m
        → leaf_lookup o k m ≡ (if o.same key k then some value else leaf_lookup o k n)
    spread_lookup k sm = elim (Bool-cases (o.same key k)) [
      | inl same ↦ rw same (
          (leaf_lookup_lem o k m sm).0 p (omega (arith, t.size), rw (t.here.0) same)
          ∙ ap some t.here.1)
      | inr other ↦ rw other (elim (entry_cases o k n s) [
        | inl (i, found, result) ↦ elim (Bool-cases (ltb i p)) [
          | inl lt ↦
              let same = t.before i (ltb→lt _ _ lt) in
              (leaf_lookup_lem o k m sm).0 i (omega (arith, t.size, found.0), rw (same.0) found.1)
              ∙ ap some same.1
              ∙ sym result
          | inr ge ↦
              let same = t.behind i (ltb_false→le _ _ ge) found.0 in
              (leaf_lookup_lem o k m sm).0 (i + 1)
                (omega (arith, t.size, found.0), rw (same.0) found.1)
              ∙ ap some same.1
              ∙ sym result
        ]
        | inr (absent, result) ↦
            (leaf_lookup_lem o k m sm).1 (λ i found. elim (around p i) [
              | inl lt ↦
                  absent i (omega arith, sym (ap (λ x. o.same x k) (t.before i lt).0) ∙ found.1)
              | inr (inl here) ↦
                  let at_p : m.keys i ≡ key = ap m.keys here ∙ t.here.0 in cc (found.1, at_p, other)
              | inr (inr (j, e, ge)) ↦
                  let in_n : j < n.num_key = omega (arith, t.size, found.0) in
                  let at_j : m.keys i ≡ n.keys j = ap m.keys e ∙ (t.behind j ge in_n).0 in
                  absent j (in_n, sym (ap (λ x. o.same x k) at_j) ∙ found.1)
            ])
            ∙ sym result
      ])
    ]

  -- The keys at and behind the lower bound of a key that no entry has are greater.
  absent_less :
      (key : K) (n : IxNode K V)
      → IsSorted o n
      → ((i : ℕ) → ¬ IsAt o i key n)
      → (i : ℕ) → lower_bound o key n ≤ i
      → i < n.num_key
      → o.less key (n.keys i) ≡ true
  absent_less key n s absent i ge lt = elim (Bool-cases (o.less key (n.keys i))) [
    | inl greater ↦ greater
    | inr not_greater ↦
        let not_less : o.less (n.keys i) key ≡ false =
          ground (arith, (lower_bound_lem o key n s).1 i lt, ge) in
        absurd (absent i (lt, (o.same_iff (n.keys i) key).1 (not_less, not_greater)))
  ]

  -- On sorted keys with room for one more, `insert` of a key that no entry has adds the entry: the
  -- keys stay sorted, the key finds the new record id, and every other key finds what it found
  -- before. `insert` of a key that an entry has changes nothing.
  pub insert_lem :
      (key : K) (value : V) (n : IxNode K V)
      → IsSorted o n
      → n.num_key < n.max_size
      → (leaf_lookup o key n ≡ none
          → (m : IxNode K V) × (insert o key value n ≡ some m)
            × IsSorted o m
            × (m.num_key ≡ n.num_key + 1)
            × ((k : K)
                → leaf_lookup o k m ≡ (if o.same key k then some value else leaf_lookup o k n)))
        × ((v : V) → leaf_lookup o key n ≡ some v → insert o key value n ≡ some n)
  unfolding insert
  insert_lem key value n s room =
      let p = lower_bound o key n in
      let (le, low) = lower_bound_lem o key n s in
      elim (entry_cases o key n s) [
        | inl (i, found, result) ↦
            let here : found_at o p key n ≡ true =
              rw (at_lower_bound o key n i s found) (ground (arith, found)) in
            (λ missed. cc (missed, result), λ v h. rw here)
        | inr (absent, result) ↦
            let missed : found_at o p key n ≡ false = elim (Bool-cases (found_at o p key n)) [
              | inl found ↦ absurd (absent p (ground arith))
              | inr missed ↦ missed
            ] in
            let (m, inserted, t) = insert_pair-Spread p key value n le room in
            let below : (i : ℕ) → i < p → o.less (n.keys i) key ≡ true =
              λ i lt. ground (arith, low i, lt, le) in
            let above = absent_less key n s absent in
            let sm = spread-IsSorted p key value n m t s le below above in
            (
              λ h. (
                m,
                rw missed inserted,
                sm,
                t.size,
                λ k. spread_lookup p key value n m t s le below above k sm,
              ),
              λ v h. cc (h, result),
            )
      ]
