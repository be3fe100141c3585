-- ===== src/Execution/Join/Advance.antt =====
-- executor_nestedloop_join.h, `advance_to_match`.
use db2024_main.Common.{
  ℕ, Bool, Bool-cases, List, [], arith, false, inl, inr, length, map, pos, refl, some, suc, take,
  true, zero, ◌<◌, ◌∙◌, ◌∷◌, ◌≡◌, ◌≤◌, ◌⊎◌, ap, subst, sym, ◌++◌, Result, ok,
}
use db2024_main.Execution.Executor.{Executor, Yields, YieldsNext}
use db2024_main.Execution.Join.{JoinOf, count_down, before, inner_loop, at_left, next_left, advance}
use db2024_main.Execution.Join.Tuples.{row, joined, row-take, tuple_at, take_all, length-map}

module _ {A B : Type 0} (rounds : ℕ) (L : Executor A) (R : Executor B)
    (accepts : A → B → Result Bool) (test : A → B → Bool)
    (evaluates : (a : A) (b : B) → accepts a b ≡ ok (test a b)) where
  -- What the inner loop leaves as it is.
  record Same (j j2 : JoinOf rounds L R accepts) : Type 0 where
    same_left : j2.left ≡ j.left
    same_rec : j2.left_rec ≡ j.left_rec
    same_records : j2.right_records ≡ j.right_records
    same_end : j2.isend ≡ j.isend

  -- The join stands on a pair that the conditions accept, at the position `k`.
  record OnPair (bs : List B) (a : A) (k : ℕ) (b : B) (j : JoinOf rounds L R accepts) : Type 0 where
    right_rec : j.right_rec ≡ some b
    right_pos : j.right_pos ≡ pos k
    in_range : k < length bs
    accepted : test a b ≡ true

  inner_loop_lem :
      (bs : List B) (a : A) (k : ℕ) (j : JoinOf rounds L R accepts)
      → k ≤ length bs
      → j.left_rec ≡ some a
      → j.right_records ≡ map some bs
      → (j2 : JoinOf rounds L R accepts) × Same j j2
        × (((n : ℕ) × (b : B) × (inner_loop rounds L R accepts k j ≡ ok (j2, true))
              × OnPair bs a n b j2
              × (row test a (take k bs) ≡ (a, b) ∷ row test a (take n bs)))
            ⊎ ((inner_loop rounds L R accepts k j ≡ ok (j2, false))
                × (row test a (take k bs) ≡ [])))
  unfolding inner_loop
  inner_loop_lem bs a zero j le has records = (
    j,
    record { same_left = refl; same_rec = refl; same_records = refl; same_end = refl },
    inr (refl, refl),
  )
  inner_loop_lem bs a (suc k) j le has records =
      let (b, there, pointer) = tuple_at k bs (omega arith) in
      let j1 : JoinOf rounds L R accepts = record j { right_rec = some b; right_pos = before k } in
      elim (Bool-cases (test a b)) [
        | inl good ↦ (
          record j { right_rec = some b; right_pos = pos k },
          record { same_left = refl; same_rec = refl; same_records = refl; same_end = refl },
          inl (
            k,
            b,
            rw (has, records, pointer, evaluates a b, good) refl,
            record { right_rec = refl; right_pos = refl; in_range = omega arith; accepted = good },
            row-take test a b k bs there ∙ rw good refl,
          ),
        )
        | inr bad ↦
            let skipped : row test a (take (suc k) bs) ≡ row test a (take k bs) =
              row-take test a b k bs there ∙ rw bad refl in
            let step : inner_loop rounds L R accepts (suc k) j
                ≡ inner_loop rounds L R accepts k j1 =
              rw (has, records, pointer, evaluates a b, bad) refl in
            let (j2, same, result) = inner_loop_lem bs a k j1 (omega arith) has records in
            (
              j2,
              record {
                same_left = same.same_left;
                same_rec = same.same_rec;
                same_records = same.same_records;
                same_end = same.same_end;
              },
              elim result [
                | inl (n, c, e, on, r) ↦ inl (n, c, step ∙ e, on, skipped ∙ r)
                | inr (e, r) ↦ inr (step ∙ e, skipped ∙ r)
              ],
            )
      ]

  -- A join whose remaining tuples, the current one first, are `todo`.
  pub record Current (bs : List B) (j : JoinOf rounds L R accepts) (todo : List (A × B))
      : Type 0 where
    pub going : j.isend ≡ false
    pub a : A
    pub rest : List A
    pub b : B
    pub k : ℕ
    pub left : YieldsNext L j.left rest
    pub enough : length rest < rounds
    pub left_rec : j.left_rec ≡ some a
    pub right_rec : j.right_rec ≡ some b
    pub records : j.right_records ≡ map some bs
    pub right_pos : j.right_pos ≡ pos k
    pub in_range : k < length bs
    pub accepted : test a b ≡ true
    pub todo_is : todo ≡ (a, b) ∷ (row test a (take k bs) ++ joined test rest bs)

  abbrev pub Ready : List B → JoinOf rounds L R accepts → List (A × B) → Type 0
  Ready bs j todo = ((j.isend ≡ true) × (todo ≡ [])) ⊎ Current bs j todo

  -- The outer loop with so much fuel does what it should, on any state of the join.
  abbrev pub Advances : List B → ℕ → Type 0
  Advances bs fuel =
      (j : JoinOf rounds L R accepts) (a : A) (rest : List A) (k : ℕ)
      → YieldsNext L j.left rest
      → length rest < fuel
      → length rest < rounds
      → j.left_rec ≡ some a
      → j.right_records ≡ map some bs
      → j.isend ≡ false
      → count_down j.right_pos ≡ k
      → k ≤ length bs
      → (j2 : JoinOf rounds L R accepts) × (advance rounds L R accepts fuel j ≡ ok j2)
        × Ready bs j2 (row test a (take k bs) ++ joined test rest bs)

  pub count_down-before : (n : ℕ) → count_down (before n) ≡ n
  count_down-before zero = refl
  count_down-before (suc n) = omega arith

  -- `Next` of the left side at its tuples that are left, and the loops behind it.
  pub at_left_lem :
      (bs : List B) (fuel : ℕ)
      → Advances bs fuel
      → (j : JoinOf rounds L R accepts) (s : L.State) (l : List A) → Yields L s l
      → length l ≤ fuel
      → length l ≤ rounds
      → j.right_records ≡ map some bs
      → j.isend ≡ false
      → (j2 : JoinOf rounds L R accepts) × (at_left rounds L R accepts
            (advance rounds L R accepts fuel)
            j
            s
          ≡ ok j2)
        × Ready bs j2 (joined test l bs)
  unfolding at_left
  at_left_lem bs fuel ih j s [] ended enough within records going =
      (record j { left = s; isend = true }, rw ended refl, inl (refl, refl))
  at_left_lem bs fuel ih j s (a ∷ l) (more, (t, now, left)) enough within records going =
      let j1 : JoinOf rounds L R accepts = record j {
        left = t;
        left_rec = some a;
        right_pos = before (length j.right_records);
      } in
      let size : length j.right_records ≡ length bs = ap length records ∙ length-map some bs in
      let (j2, done, ready) =
        ih j1 a l (length bs) left (omega (arith, enough)) (omega (arith, within)) refl records
          going (count_down-before (length j.right_records) ∙ size) (omega arith) in
      (
        j2,
        rw (more, now) done,
        subst (λ l1. Ready bs j2 (row test a l1 ++ joined test l bs)) (take_all bs) ready,
      )

  next_left_lem :
      (bs : List B) (fuel : ℕ)
      → Advances bs fuel
      → (j : JoinOf rounds L R accepts) (rest : List A) → YieldsNext L j.left rest
      → length rest ≤ fuel
      → length rest ≤ rounds
      → j.right_records ≡ map some bs
      → j.isend ≡ false
      → (j2 : JoinOf rounds L R accepts) × (next_left rounds L R accepts
            (advance rounds L R accepts fuel)
            j
          ≡ ok j2)
        × Ready bs j2 (joined test rest bs)
  unfolding next_left
  next_left_lem bs fuel ih j rest (u, moved, left) enough within records going =
      let (j2, done, ready) = at_left_lem bs fuel ih j u rest left enough within records going in
      (j2, rw moved done, ready)

  pub advance_lem : (bs : List B) (fuel : ℕ) → Advances bs fuel
  unfolding advance
  advance_lem bs zero j a rest k left enough within has records going here le = absurd (omega arith)
  advance_lem bs (suc fuel) j a rest k left enough within has records going here le =
      let (j2, same, result) = inner_loop_lem bs a k j le has records in
      let left2 : YieldsNext L j2.left rest =
        subst (λ s. YieldsNext L s rest) (sym same.same_left) left in
      let records2 = same.same_records ∙ records in
      let going2 = same.same_end ∙ going in
      elim result [
        | inl (n, b, e, on, r) ↦ (
          j2,
          rw (here, e) refl,
          inr (record {
            going = going2;
            a = a;
            rest = rest;
            b = b;
            k = n;
            left = left2;
            enough = within;
            left_rec = same.same_rec ∙ has;
            right_rec = on.right_rec;
            records = records2;
            right_pos = on.right_pos;
            in_range = on.in_range;
            accepted = on.accepted;
            todo_is = ap (λ l. l ++ joined test rest bs) r;
          }),
        )
        | inr (e, r) ↦
            let (j3, done, ready) =
              next_left_lem bs fuel (advance_lem bs fuel) j2 rest left2 (omega (arith, enough))
                (omega (arith, within)) records2 going2 in
            (
              j3,
              rw (here, e) done,
              subst (λ l. Ready bs j3 (l ++ joined test rest bs)) (sym r) ready,
            )
      ]
