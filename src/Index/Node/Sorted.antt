-- ===== src/Index/Node/Sorted.antt =====
-- The searches of a node whose keys are sorted.
use db2024_main.Common.{
  ℕ, Bool, Bool-cases, arith, inl, inr, ltb, ltb_false→le, ltb→lt, none, some, subst, sym, true,
  ◌<◌, ◌==◌, ◌||◌, ◌∙◌, ◌≡◌, ◌≤◌, refl, ◌⊎◌, leb, ◌-◌,
}
use db2024_main.Index.Order.{KeyOrder}
use db2024_main.Index.Node.{
  IxNode, bound_loop, lower_bound, upper_bound, found_at, leaf_lookup, internal_lookup,
}
use db2024_main.Index.Node.Search.{bound_loop_lem}

module _ {K V : Type 0} (o : KeyOrder K) where
  -- The keys in use ascend strictly.
  abbrev pub IsSorted : IxNode K V → Type 0
  IsSorted n = (i j : ℕ) → i < j → j < n.num_key → o.less (n.keys i) (n.keys j) ≡ true

  -- The entry `i` has the key.
  abbrev pub IsAt : ℕ → K → IxNode K V → Type 0
  IsAt i key n = (i < n.num_key) × (o.same (n.keys i) key ≡ true)

  less_down :
      (n : IxNode K V) (key : K)
      → IsSorted n
      → (i j : ℕ) → i ≤ j
      → j < n.num_key
      → o.less (n.keys j) key ≡ true
      → o.less (n.keys i) key ≡ true
  less_down n key s i j le lt h = elim (Bool-cases (i == j)) [
    | inl here ↦ subst (λ x. o.less (n.keys x) key ≡ true) (sym (ground arith)) h
    | inr away ↦ o.less_trans (n.keys i) (n.keys j) key (s i j (ground arith) lt) h
  ]

  upto_down :
      (n : IxNode K V) (key : K)
      → IsSorted n
      → (i j : ℕ) → i ≤ j
      → j < n.num_key
      → (o.less (n.keys j) key || o.same (n.keys j) key) ≡ true
      → (o.less (n.keys i) key || o.same (n.keys i) key) ≡ true
  upto_down n key s i j le lt h = elim (Bool-cases (i == j)) [
    | inl here ↦
        subst (λ x. (o.less (n.keys x) key || o.same (n.keys x) key) ≡ true) (sym (ground arith)) h
    | inr away ↦ ground (
      arith,
      o.less_trans (n.keys i) (n.keys j) key,
      s i j (ground arith) lt,
      (o.same_less (n.keys j) key (n.keys i)),
    )
  ]

  -- On sorted keys `lower_bound` is the number of keys that are less than the target: exactly the
  -- keys before it are less.
  pub lower_bound_lem :
      (key : K) (n : IxNode K V)
      → IsSorted n
      → (lower_bound o key n ≤ n.num_key)
        × ((i : ℕ) → i < n.num_key → o.less (n.keys i) key ≡ ltb i (lower_bound o key n))
  unfolding lower_bound
  lower_bound_lem key n s =
      let test : ℕ → Bool = λ i. o.less (n.keys i) key in
      let (low, high, passed, failed) =
        bound_loop_lem test n.num_key 0 n.num_key (omega arith) (omega arith)
          (λ i j a b h. less_down n key s i j a b h) in
      (
        high,
        λ i lt. elim (Bool-cases (ltb i (bound_loop test n.num_key 0 n.num_key))) [
          | inl before ↦ passed i (omega arith) (ltb→lt _ _ before) ∙ sym before
          | inr behind ↦ failed i (ltb_false→le _ _ behind) lt ∙ sym behind
        ],
      )

  -- On sorted keys exactly the keys before `upper_bound` are less than the target or the same.
  upper_bound_lem :
      (key : K) (n : IxNode K V)
      → IsSorted n
      → (upper_bound o key n ≤ n.num_key)
        × ((i : ℕ)
            → i < n.num_key
            → (o.less (n.keys i) key || o.same (n.keys i) key) ≡ ltb i (upper_bound o key n))
  unfolding upper_bound
  upper_bound_lem key n s =
      let test : ℕ → Bool = λ i. o.less (n.keys i) key || o.same (n.keys i) key in
      let (low, high, passed, failed) =
        bound_loop_lem test n.num_key 0 n.num_key (omega arith) (omega arith)
          (λ i j a b h. upto_down n key s i j a b h) in
      (
        high,
        λ i lt. elim (Bool-cases (ltb i (bound_loop test n.num_key 0 n.num_key))) [
          | inl before ↦ passed i (omega arith) (ltb→lt _ _ before) ∙ sym before
          | inr behind ↦ failed i (ltb_false→le _ _ behind) lt ∙ sym behind
        ],
      )

  -- An entry with the key stands at the lower bound.
  pub at_lower_bound :
      (key : K) (n : IxNode K V) (i : ℕ) → IsSorted n → IsAt i key n → lower_bound o key n ≡ i
  at_lower_bound key n i s here =
      let p = lower_bound o key n in
      let (high, before) = lower_bound_lem key n s in
      let not_less = ((o.same_iff (n.keys i) key).0 here.1).0 in
      let le : p ≤ i = ground (arith, before i here.0, not_less) in
      elim (Bool-cases (ltb p i)) [
        | inl lt ↦
            let less = s p i (ltb→lt _ _ lt) here.0 in
            absurd (
              ground
                (arith, before p, less, (o.same_less (n.keys i) key (n.keys p) here.1).1, here.0))
        | inr ge ↦ omega (arith, le, ltb_false→le _ _ ge)
      ]

  -- On sorted keys `leaf_lookup` finds the record id of the entry with the key, and nothing if no
  -- entry has the key.
  pub leaf_lookup_lem :
      (key : K) (n : IxNode K V)
      → IsSorted n
      → ((i : ℕ) → IsAt i key n → leaf_lookup o key n ≡ some (n.rids i))
        × (((i : ℕ) → ¬ IsAt i key n) → leaf_lookup o key n ≡ none)
  unfolding leaf_lookup
  leaf_lookup_lem key n s = (
    λ i here. rw (at_lower_bound key n i s here) (ground (arith, here)),
    λ absent. elim (Bool-cases (found_at o (lower_bound o key n) key n)) [
      | inl found ↦ absurd (absent (lower_bound o key n) (ground arith))
      | inr missed ↦ rw missed refl
    ],
  )

  -- Whether some entry has the key.
  pub entry_cases :
      (key : K) (n : IxNode K V)
      → IsSorted n
      → ((i : ℕ) × IsAt i key n × (leaf_lookup o key n ≡ some (n.rids i)))
        ⊎ (((i : ℕ) → ¬ IsAt i key n) × (leaf_lookup o key n ≡ none))
  entry_cases key n s = elim (Bool-cases (found_at o (lower_bound o key n) key n)) [
    | inl found ↦
        let here : IsAt (lower_bound o key n) key n = ground arith in
        inl (lower_bound o key n, here, (leaf_lookup_lem key n s).0 (lower_bound o key n) here)
    | inr missed ↦
        let absent : (i : ℕ) → ¬ IsAt i key n =
          λ i here. ground (arith, at_lower_bound key n i s here, here) in
        inr (absent, (leaf_lookup_lem key n s).1 absent)
  ]

  -- On the sorted keys of a node that has a key at least, `internal_lookup` picks the child in whose range the key lies: behind the first
  -- one, exactly the children up to it have a first key that is not greater than the key.
  pub internal_lookup_lem :
      (key : K) (n : IxNode K V)
      → IsSorted n
      → 0 < n.num_key
      → (i : ℕ) × (internal_lookup o key n ≡ n.rids i)
        × (i < n.num_key)
        × ((j : ℕ)
            → 0 < j
            → j < n.num_key
            → (o.less (n.keys j) key || o.same (n.keys j) key) ≡ leb j i)
  unfolding internal_lookup
  internal_lookup_lem key n s some_key =
      let (high, upto) = upper_bound_lem key n s in
      (
        upper_bound o key n - 1,
        refl,
        omega (arith, high),
        λ j positive lt. upto j lt ∙ ground arith,
      )
