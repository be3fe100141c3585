-- ===== src/Execution/Join/Run.antt =====
-- executor_nestedloop_join.h, `beginTuple`, `nextTuple` and `Next`, against the tuples of `joined`.
use db2024_main.Common.{
  Bool, List, Option, [], ap, arith, false, inl, inr, length, map, none, refl, some, subst, sym,
  take, true, ◌++◌, ◌-◌, ◌==◌, ◌∙◌, ◌∷◌, ◌≡◌, if◌then◌else◌, append_assoc, append_nil, Result, ok,
  suc, zero, ℕ, ◌≤◌,
}
use db2024_main.Execution.Executor.{Executor, Yields, YieldsAll}
use db2024_main.Execution.Join.{
  JoinOf, count_down, before, read_right, advance_to_match, begin_left, begin_tuple, next_tuple,
  next, is_end, join_executor,
}
use db2024_main.Execution.Join.Tuples.{row, joined, joined_nil, length-map}
use db2024_main.Execution.Join.Advance.{Ready, advance_lem, at_left_lem, count_down-before}

module _ {A B : Type 0} (rounds : ℕ) (L : Executor A) (R : Executor B)
    (accepts : A → B → Result Bool) (test : A → B → Bool)
    (evaluates : (a : A) (b : B) → accepts a b ≡ ok (test a b)) where
  abbrev pub ReadyFor : List B → JoinOf rounds L R accepts → List (A × B) → Type 0
  ReadyFor = Ready rounds L R accepts test evaluates

  read_right_lem :
      (n : ℕ) (l : List B) (s : R.State) (records : List (Option B))
      → Yields R s l
      → length l ≤ n
      → (t : R.State) × (read_right rounds L R accepts n s records ≡ ok (t, records ++ map some l))
  unfolding read_right
  read_right_lem zero [] s records ended enough =
      (s, ap (λ r. ok (s, r)) (sym (append_nil records)))
  read_right_lem zero (b ∷ l) s records y enough = absurd (omega (arith, enough))
  read_right_lem (suc n) [] s records ended enough =
      (s, rw ended (ap (λ r. ok (s, r)) (sym (append_nil records))))
  read_right_lem (suc n) (b ∷ l) s records (more, (t, now, (u, moved, left))) enough =
      let (v, done) = read_right_lem n l u (records ++ some b ∷ []) left (omega (arith, enough)) in
      (
        v,
        rw (more, now, moved)
            (done ∙ ap (λ r. ok (v, r)) (append_assoc records (some b ∷ []) (map some l))),
      )

  begin_left_lem :
      (bs : List B) (l : List A) (j : JoinOf rounds L R accepts)
      → YieldsAll L j.left l
      → length l ≤ rounds
      → j.right_records ≡ map some bs
      → j.isend ≡ false
      → (j2 : JoinOf rounds L R accepts) × (begin_left rounds L R accepts j ≡ ok j2)
        × ReadyFor bs j2 (joined test l bs)
  unfolding begin_left advance_to_match
  begin_left_lem [] l j all enough records going =
      let none_right : length j.right_records ≡ 0 = ap length records in
      (record j { isend = true }, rw none_right refl, inl (refl, joined_nil test l))
  begin_left_lem (b ∷ bs) l j (s, began, left) enough records going =
      let size : length j.right_records ≡ length (b ∷ bs) =
        ap length records ∙ length-map some (b ∷ bs) in
      let some_right : (length j.right_records == 0) ≡ false = ground (arith, size) in
      let (j2, done, ready) =
        at_left_lem rounds L R accepts test evaluates (b ∷ bs) rounds
          (advance_lem rounds L R accepts test evaluates (b ∷ bs) rounds) j s l left enough enough
          records going in
      (j2, rw (some_right, began) done, ready)

  -- If the executors of the two sides give the tuples `l` and `bs` from their `beginTuple` on, and the
  -- conditions can be evaluated on every pair, then `beginTuple` returns, given a round for each
  -- tuple of a side, and leaves a join whose tuples to come are those that the conditions accept, of
  -- each left tuple in order with the right ones from the last to the first.
  pub begin_tuple-Ready :
      (l : List A) (bs : List B) (j : JoinOf rounds L R accepts)
      → YieldsAll L j.left l
      → YieldsAll R j.right bs
      → length l ≤ rounds
      → length bs ≤ rounds
      → (j2 : JoinOf rounds L R accepts) × (begin_tuple rounds L R accepts j ≡ ok j2)
        × ReadyFor bs j2 (joined test l bs)
  unfolding begin_tuple
  begin_tuple-Ready l bs j all_left (s, began, right) left_rounds right_rounds =
      let (t, read) = read_right_lem rounds bs s [] right right_rounds in
      let (j2, done, ready) =
        begin_left_lem bs l (record j { isend = false; right = t; right_records = map some bs })
          all_left left_rounds refl refl in
      (j2, rw (began, read) done, ready)

  going_on :
      (j : JoinOf rounds L R accepts)
      → j.isend ≡ false
      → next_tuple rounds L R accepts j
        ≡ advance_to_match rounds L R accepts
            (record j { right_pos = before (count_down j.right_pos - 1) })
  unfolding next_tuple
  going_on j h =
      let go =
        advance_to_match rounds L R accepts
          (record j { right_pos = before (count_down j.right_pos - 1) }) in
      ap (λ b. if b then ok j else go) h

  -- Where tuples are to come, the join has not ended and `Next` gives the first of them;
  -- `nextTuple` returns and leaves a join with the other tuples to come.
  -- Where none are to come, the join has ended, and `nextTuple` changes nothing.
  pub next_tuple-Ready :
      (bs : List B) (j : JoinOf rounds L R accepts) (todo : List (A × B))
      → ReadyFor bs j todo
      → ((t : A × B) (more : List (A × B))
          → todo ≡ t ∷ more
          → (j.isend ≡ false)
            × (next rounds L R accepts j ≡ some t)
            × ((j2 : JoinOf rounds L R accepts) × (next_tuple rounds L R accepts j ≡ ok j2)
                × ReadyFor bs j2 more))
        × (todo ≡ []
            → (j.isend ≡ true)
              × (next rounds L R accepts j ≡ none)
              × (next_tuple rounds L R accepts j ≡ ok j))
  unfolding next_tuple next advance_to_match
  next_tuple-Ready bs j todo (inl (ended, empty)) =
      (λ t more e. cc (e, empty), λ e. (ended, rw ended refl, rw ended refl))
  next_tuple-Ready bs j todo (inr c) = (
    λ t more e.
        let same : (c.a, c.b) ∷ (row test c.a (take c.k bs) ++ joined test c.rest bs) ≡ t ∷ more =
          sym c.todo_is ∙ e in
        let j1 : JoinOf rounds L R accepts = record j {
          right_pos = before (count_down j.right_pos - 1);
        } in
        let place : count_down (before (count_down j.right_pos - 1)) ≡ c.k =
          count_down-before rounds L R accepts test evaluates (count_down j.right_pos - 1)
          ∙ rw (c.right_pos) (omega arith) in
        let (j2, done, ready) =
          advance_lem rounds L R accepts test evaluates bs rounds j1 c.a c.rest c.k c.left c.enough
            c.enough c.left_rec c.records c.going place (omega (arith, c.in_range)) in
        (
          c.going,
          rw (c.going, c.left_rec, c.right_rec) (cc (same)),
          (j2, going_on j c.going ∙ done, subst (ReadyFor bs j2) (cc (same)) ready),
        ),
    λ e. cc (e, c.todo_is),
  )

  Ready-Yields :
      (bs : List B) (todo : List (A × B)) (j : JoinOf rounds L R accepts)
      → ReadyFor bs j todo
      → Yields (join_executor rounds L R accepts) j todo
  unfolding is_end
  Ready-Yields bs [] j ready = ((next_tuple-Ready bs j [] ready).1 refl).0
  Ready-Yields bs (t ∷ todo) j ready =
      let (going, now, (j2, moved, left)) =
        (next_tuple-Ready bs j (t ∷ todo) ready).0 t todo refl in
      (going, (j, ap (λ o. ok (o, j)) now, (j2, moved, Ready-Yields bs todo j2 left)))

  -- If the executors of the two sides give the tuples `l` and `bs` from their `beginTuple` on, and the
  -- conditions can be evaluated on every pair, then the join, given a round for each tuple of a
  -- side, is an executor that from its `beginTuple` on gives the pairs that the conditions accept,
  -- and then the end: of each left tuple in order, those with the right ones from the last to the
  -- first.
  pub join_executor-Yields :
      (l : List A) (bs : List B) (j : JoinOf rounds L R accepts)
      → YieldsAll L j.left l
      → YieldsAll R j.right bs
      → length l ≤ rounds
      → length bs ≤ rounds
      → YieldsAll (join_executor rounds L R accepts) j (joined test l bs)
  join_executor-Yields l bs j all_left all_right left_rounds right_rounds =
      let (j2, done, ready) =
        begin_tuple-Ready l bs j all_left all_right left_rounds right_rounds in
      (j2, done, Ready-Yields bs (joined test l bs) j2 ready)
