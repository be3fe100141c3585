-- ===== src/Planner/Joins.antt =====
-- The joins of `make_one_rel`: each condition goes into the tree once, and so does each table.
use db2024_main.Common.{
  ℕ, Bool-cases, List, Text, [], arith, false, inl, inr, not, ok, refl, str_eq, sym, true, ◌+◌, ◌∷◌,
  ◌||◌, ◌≡◌, ◌∙◌, All, str_eq_iff, subst,
}
use db2024_main.Common.Results.{◌>>=◌}
use db2024_main.Query.{Condition, swap_sides}
use db2024_main.Planner.{
  Plan, Popped, Pushed, Slots, Tree, has_name, is_null, join, join_all, join_next, join_one,
  join_rest, nest_loop, next_join, null, scan,
}
use db2024_main.Planner.Weight.{conds_weight, scans_table, unjoined, weight}
use db2024_main.Planner.Push.{IsPushed, push_conds-IsPushed}
use db2024_main.Planner.Scans.{Agree, IsPopped, IsPopped-Agree, listed, marked, pop_new-IsPopped}

module _ {F : Type 0} (w : Text → ℕ) (v : Condition F → ℕ) where
  null-weight :
      (p : Plan F) → is_null p ≡ true → (weight w v p ≡ 0) × ((u : Text) → scans_table u p ≡ false)
  unfolding is_null weight scans_table
  null-weight null h = (refl, λ u. refl)
  null-weight (scan x) h = cc
  null-weight (join tag l r conds) h = cc

  -- A tree whose weight and that of the scans to come make up `total`.
  pub record IsTree (total : ℕ) (t : Tree F) : Type 0 where
    pub agree : Agree t.joined t.slots
    pub present :
        (u : Text) → listed u t.slots ≡ true → marked u t.slots ≡ true → scans_table u t.plan ≡ true
    pub weighed : weight w v t.plan + unjoined w v t.slots ≡ total

  -- A condition on columns of two tables that are both scanned.
  pub record IsLink (slots : Slots F) (c : Condition F) : Type 0 where
    pub left : listed c.lhs_col.tab_name slots ≡ true
    pub right : listed c.rhs_col.tab_name slots ≡ true
    pub apart :
        (t : Text) → str_eq t c.lhs_col.tab_name ≡ true → str_eq t c.rhs_col.tab_name ≡ false
    pub swapped : Condition F
    pub can_swap : swap_sides c ≡ ok swapped
    pub same : v swapped ≡ v c

  abbrev Scanned : Plan F → Plan F → Plan F → Plan F → Type 0
  Scanned left right plan p2 =
      (u : Text)
      → scans_table u p2 ≡ (scans_table u left || scans_table u right || scans_table u plan)

  pushed-weight :
      {slots : Slots F} (c : Condition F) (k : IsLink slots c) (plan : Plan F) (q : Pushed F)
      → IsPushed w v c k.swapped k.can_swap k.same k.apart plan q
      → scans_table c.lhs_col.tab_name plan ≡ true
      → scans_table c.rhs_col.tab_name plan ≡ true
      → (left right : Plan F) → weight w v left ≡ 0
      → weight w v right ≡ 0
      → weight w v q.plan ≡ weight w v left + weight w v right + weight w v plan + v c
  pushed-weight c k plan q hq hl hr left right zl zr =
      let three = hq.both hl hr in ground (arith, hq.added)

  join_next-weight :
      (c : Condition F) (slots : Slots F) (left right plan : Plan F)
      → IsLink slots c
      → (is_null left ≡ true → scans_table c.lhs_col.tab_name plan ≡ true)
      → (is_null right ≡ true → scans_table c.rhs_col.tab_name plan ≡ true)
      → (p2 : Plan F) × (join_next (not (is_null right)) c left right plan ≡ ok p2)
        × (weight w v p2 ≡ weight w v left + weight w v right + weight w v plan + v c)
        × Scanned left right plan p2
  unfolding join_next join_one weight conds_weight scans_table
  join_next-weight c slots left right plan k hl hr = elim (Bool-cases (is_null left)) [
    | inl nl ↦ elim (Bool-cases (is_null right)) [
      | inl nr ↦
          let (q, eq, hq) = push_conds-IsPushed w v c k.swapped k.can_swap k.same k.apart plan in
          (
            q.plan,
            rw (nl, nr, eq) refl,
            pushed-weight c k plan q hq (hl nl) (hr nr) left right (null-weight left nl).0
                (null-weight right nr).0,
            λ u. ground (arith, hq.kept u, (null-weight left nl).1 u, (null-weight right nr).1 u),
          )
      | inr nr ↦ (
        join nest_loop right plan (k.swapped ∷ []),
        rw (nl, nr, k.can_swap) refl,
        omega (arith, (null-weight left nl).0, k.same),
        λ u. ground (arith, (null-weight left nl).1 u),
      )
    ]
    | inr nl ↦ elim (Bool-cases (is_null right)) [
      | inl nr ↦ (
        join nest_loop left plan (c ∷ []),
        rw (nl, nr) refl,
        omega (arith, (null-weight right nr).0),
        λ u. ground (arith, (null-weight right nr).1 u),
      )
      | inr nr ↦ (
        join nest_loop (join nest_loop left right (c ∷ [])) plan [],
        rw (nl, nr) refl,
        omega arith,
        λ u. ground arith,
      )
    ]
  ]

  module _ (total : ℕ) (c : Condition F) (t : Tree F) (l r : Popped F) (h : IsTree total t)
      (k : IsLink t.slots c) (pl : IsPopped w v c.lhs_col.tab_name t.joined t.slots l)
      (pr : IsPopped w v c.rhs_col.tab_name l.joined l.slots r) where
    -- A table that is popped and was joined before is scanned in the tree.
    left_scanned : is_null l.plan ≡ true → scans_table c.lhs_col.tab_name t.plan ≡ true
    left_scanned e = h.present _ k.left (sym (h.agree _ k.left) ∙ sym pl.null_iff ∙ e)

    differ : str_eq c.lhs_col.tab_name c.rhs_col.tab_name ≡ false
    differ = k.apart c.lhs_col.tab_name ((str_eq_iff _ _).1 refl)

    right_joined : has_name c.rhs_col.tab_name l.joined ≡ has_name c.rhs_col.tab_name t.joined
    right_joined = ground (arith, pl.names c.rhs_col.tab_name, differ)

    right_scanned : is_null r.plan ≡ true → scans_table c.rhs_col.tab_name t.plan ≡ true
    right_scanned e =
        h.present _ k.right (sym (h.agree _ k.right) ∙ sym right_joined ∙ sym pr.null_iff ∙ e)

    still_present :
        (p2 : Plan F)
        → Scanned l.plan r.plan t.plan p2
        → (u : Text) → listed u r.slots ≡ true
        → marked u r.slots ≡ true
        → scans_table u p2 ≡ true
    still_present p2 s u lu mu = ground (
      arith,
      s u,
      pl.scans u,
      pr.scans u,
      pl.same u,
      pr.same u,
      pl.marks u,
      pr.marks u,
      h.present u,
      h.present c.lhs_col.tab_name,
      h.present c.rhs_col.tab_name,
      h.agree c.lhs_col.tab_name,
      h.agree c.rhs_col.tab_name,
      right_joined,
      k.left,
      k.right,
      str_eq_iff c.lhs_col.tab_name u,
      str_eq_iff c.rhs_col.tab_name u,
    )

    tree-IsTree :
        (t2 : Tree F) × ((join_next
              (not (has_name c.rhs_col.tab_name l.joined))
              c
              l.plan
              r.plan
              t.plan
            >>= λ plan. ok (record { plan = plan; joined = r.joined; slots = r.slots }))
          ≡ ok t2)
        × IsTree (total + v c) t2
        × ((u : Text) → listed u t2.slots ≡ listed u t.slots)
    tree-IsTree =
        let (p2, e, heavy, s) =
          join_next-weight c t.slots l.plan r.plan t.plan k left_scanned right_scanned in
        (
          record { plan = p2; joined = r.joined; slots = r.slots },
          rw (← pr.null_iff, e) refl,
          record {
            agree = IsPopped-Agree w v _ _ _ r pr (IsPopped-Agree w v _ _ _ l pl h.agree);
            present = still_present p2 s;
            weighed = omega (arith, heavy, pl.weighed, pr.weighed, h.weighed);
          },
          λ u. pr.same u ∙ pl.same u,
        )

  pub next_join-IsTree :
      (total : ℕ) (c : Condition F) (t : Tree F)
      → IsTree total t
      → IsLink t.slots c
      → (t2 : Tree F) × (next_join c t ≡ ok t2)
        × IsTree (total + v c) t2
        × ((u : Text) → listed u t2.slots ≡ listed u t.slots)
  unfolding next_join
  next_join-IsTree total c t h k =
      let pl = pop_new-IsPopped w v c.lhs_col.tab_name t.joined t.slots h.agree k.left in
      let agree = IsPopped-Agree w v _ t.joined t.slots _ pl h.agree in
      tree-IsTree total c t _ _ h k pl
        (pop_new-IsPopped w v c.rhs_col.tab_name _ _ agree (pl.same _ ∙ k.right))

  pub relisted :
      (a b : Slots F)
      → ((u : Text) → listed u b ≡ listed u a)
      → (conds : List (Condition F)) → All (IsLink a) conds
      → All (IsLink b) conds
  relisted a b same [] h = tt
  relisted a b same (c ∷ conds) h = (
    record {
      left = same _ ∙ h.0.left;
      right = same _ ∙ h.0.right;
      apart = h.0.apart;
      swapped = h.0.swapped;
      can_swap = h.0.can_swap;
      same = h.0.same;
    },
    relisted a b same conds h.1,
  )

  pub join_all-IsTree :
      (total : ℕ) (conds : List (Condition F)) (t : Tree F)
      → IsTree total t
      → All (IsLink t.slots) conds
      → (t2 : Tree F) × (join_all conds t ≡ ok t2) × IsTree (total + conds_weight w v conds) t2
  unfolding join_all conds_weight
  join_all-IsTree total [] t h k = (t, refl, subst (λ n. IsTree n t) (omega arith) h)
  join_all-IsTree total (c ∷ conds) t h k =
      let (t1, e1, h1, same) = next_join-IsTree total c t h k.0 in
      let (t2, e2, h2) = join_all-IsTree (total + v c) conds t1 h1 (relisted _ _ same conds k.1) in
      (t2, rw e1 e2, subst (λ n. IsTree n t2) (omega arith) h2)

  -- The tables that are left are joined at the end.
  pub join_rest-weight :
      (slots : Slots F) (p : Plan F)
      → weight w v (join_rest slots p) ≡ weight w v p + unjoined w v slots
  unfolding join_rest weight unjoined conds_weight
  join_rest-weight [] p = omega arith
  join_rest-weight ((x, true) ∷ slots) p = omega (arith, join_rest-weight slots p)
  join_rest-weight ((x, false) ∷ slots) p =
      omega (arith, join_rest-weight slots (join nest_loop p (scan x) []))
