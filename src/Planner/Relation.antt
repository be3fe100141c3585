-- ===== src/Planner/Relation.antt =====
-- `make_one_rel`: the scans of all tables, joined by the conditions.
use db2024_main.Common.{
  ℕ, All, All-map, List, Text, [], arith, false, Bool-cases, inl, inr, length, ok, refl, replicate,
  str_eq, str_eq_iff, suc, sym, true, zero, ◌+◌, ◌∷◌, ◌||◌, ◌≡◌, ◌∙◌, ◌⊎◌, ◌≢◌, ◌<◌,
}
use db2024_main.Catalog.{DbMeta, is_table}
use db2024_main.Query.{
  CompOp, Condition, op_eq, op_ge, op_gt, op_in, op_le, op_lt, op_ne, swap_op, swap_sides,
}
use db2024_main.Planner.{
  JoinTag, nest_loop, sort_merge, Plan, Settings, Slots, Tree, first_join, first_tag, has_name,
  join, join_rest, join_tables, join_tree, make_one_rel, pop_scan, scan, takes,
}
use db2024_main.Planner.Weight.{conds_weight, scans_table, tables_weight, unjoined, weight}
use db2024_main.Planner.Scans.{IsPopped-Agree, listed, marked, pop_scan-IsPopped}
use db2024_main.Planner.Joins.{IsLink, IsTree, join_all-IsTree, join_rest-weight, relisted}
use db2024_main.Planner.Tables.{Untaken, make_scans-IsStart}

-- What the analysis gives: the columns of a condition belong to the query's tables, and its right
-- side is a value, a set or null, or a column that is not tested by IN.
pub record IsResolved {F : Type 0} (tables : List Text) (c : Condition F) : Type 0 where
  pub no_value : c.is_lhs_val ≡ false
  pub left : has_name c.lhs_col.tab_name tables ≡ true
  pub right :
      ((c.is_rhs_val || c.is_rhs_set || c.is_rhs_null) ≡ true)
      ⊎ ((has_name c.rhs_col.tab_name tables ≡ true) × (c.op ≢ op_in))

-- The planner can exchange the sides of a condition that does not test by IN.
swap_op-ok : (op : CompOp) → op ≢ op_in → (swapped : CompOp) × (swap_op op ≡ ok swapped)
unfolding swap_op
swap_op-ok op_eq h = (op_eq, refl)
swap_op-ok op_ne h = (op_ne, refl)
swap_op-ok op_lt h = (op_gt, refl)
swap_op-ok op_gt h = (op_lt, refl)
swap_op-ok op_le h = (op_ge, refl)
swap_op-ok op_ge h = (op_le, refl)
swap_op-ok op_in h = absurd (h refl)

first_tag-ok :
    (s : Settings)
    → (s.nestedloop_join || s.sortmerge_join) ≡ true
    → (tag : JoinTag) × (first_tag s ≡ ok tag)
unfolding first_tag
first_tag-ok s h = elim (Bool-cases s.nestedloop_join) [
  | inl e ↦ (nest_loop, rw e refl)
  | inr e ↦ elim (Bool-cases s.sortmerge_join) [
    | inl f ↦ (sort_merge, rw (e, f) refl)
    | inr f ↦ absurd (ground arith)
  ]
]

all_names :
    (db : DbMeta) (tables : List Text) (u : Text)
    → All (λ t. (is_table t db ≡ true) × (str_eq [] t ≡ false)) tables
    → has_name u tables ≡ true
    → str_eq [] u ≡ false
unfolding has_name
all_names db [] u h k = cc (k)
all_names db (t ∷ tables) u h k = elim (Bool-cases (str_eq t u)) [
  | inl e ↦ rw (← (str_eq_iff t u).0 e) h.0.1
  | inr e ↦ all_names db tables u h.1 (rw e at k)
]

no_names : (u : Text) (n : ℕ) → str_eq [] u ≡ false → has_name u (replicate n []) ≡ false
unfolding has_name
no_names u zero h = refl
no_names u (suc n) h = ground (arith, no_names u n h)

module _ {F : Type 0} (w : Text → ℕ) (v : Condition F → ℕ)
    (same : (c c2 : Condition F) → swap_sides c ≡ ok c2 → v c2 ≡ v c) where
  -- A resolved condition that no table takes links two tables.
  Untaken-IsLink :
      (tables : List Text) (s : Slots F) (c : Condition F)
      → ((u : Text) → listed u s ≡ has_name u tables)
      → IsResolved tables c
      → Untaken tables c
      → IsLink w v s c
  unfolding takes swap_sides
  Untaken-IsLink tables s c lists r u = elim r.right [
    | inl e ↦ absurd (
        ground (
          arith,
          u c.lhs_col.tab_name r.left,
          (str_eq_iff c.lhs_col.tab_name c.lhs_col.tab_name).1 refl,
        ))
    | inr (known, n) ↦
        let (op, e) = swap_op-ok c.op n in
        record {
          left = lists _ ∙ r.left;
          right = lists _ ∙ known;
          apart = λ t a. rw ((str_eq_iff t c.lhs_col.tab_name).0 a) (
              ground (
                arith,
                u c.lhs_col.tab_name r.left,
                (str_eq_iff c.lhs_col.tab_name c.lhs_col.tab_name).1 refl,
              ));
          swapped = record c { lhs_col = c.rhs_col; rhs_col = c.lhs_col; op = op };
          can_swap = rw e refl;
          same = same c _ (rw e refl);
        }
  ]

  -- The first join starts a tree from scans that are not joined.
  first_join-IsTree :
      (s : Settings) (c : Condition F) (n : ℕ) (slots : Slots F)
      → (s.nestedloop_join || s.sortmerge_join) ≡ true
      → ((u : Text) → marked u slots ≡ false)
      → ((u : Text) → listed u slots ≡ true → str_eq [] u ≡ false)
      → IsLink w v slots c
      → (t : Tree F) × (first_join s c (replicate n []) slots ≡ ok t)
        × IsTree w v (unjoined w v slots + v c) t
        × ((u : Text) → listed u t.slots ≡ listed u slots)
  unfolding first_join weight conds_weight scans_table
  first_join-IsTree s c n slots on fresh named k =
      let (tag, et) = first_tag-ok s on in
      let a = c.lhs_col.tab_name in
      let b = c.rhs_col.tab_name in
      let l = pop_scan a (replicate n []) slots in
      let free = λ (u : Text) (h : listed u slots ≡ true). no_names u n (named u h) in
      let pl = pop_scan-IsPopped w v a (replicate n []) slots (free a k.left) k.left (fresh a) in
      let differ : str_eq a b ≡ false = k.apart a ((str_eq_iff a a).1 refl) in
      let pr =
        pop_scan-IsPopped w v b l.joined l.slots
          (ground (arith, pl.names b, free b k.right, differ)) (pl.same b ∙ k.right)
          (ground (arith, pl.marks b k.right, fresh b, differ)) in
      let r = pop_scan b l.joined l.slots in
      (
        record { plan = join tag l.plan r.plan (c ∷ []); joined = r.joined; slots = r.slots },
        rw et refl,
        record {
          agree =
              IsPopped-Agree w v b _ _ r pr
                (IsPopped-Agree w v a _ _ l pl (λ u h. free u h ∙ sym (fresh u)));
          present = λ u h m. ground (
            arith,
            pl.scans u,
            pr.scans u,
            pr.marks u,
            pl.marks u,
            pl.same u,
            pr.same u,
            fresh u,
            free a k.left,
            free b k.right,
            pl.names b,
            differ,
          );
          weighed = omega (arith, pl.weighed, pr.weighed);
        },
        λ u. pr.same u ∙ pl.same u,
      )

  join_tables-weight :
      (s : Settings) (conds : List (Condition F)) (slots : Slots F)
      → (s.nestedloop_join || s.sortmerge_join) ≡ true
      → ((u : Text) → marked u slots ≡ false)
      → ((u : Text) → listed u slots ≡ true → str_eq [] u ≡ false)
      → All (IsLink w v slots) conds
      → 0 < length slots
      → (p : Plan F) × (join_tables s conds slots ≡ ok p)
        × (weight w v p ≡ unjoined w v slots + conds_weight w v conds)
  unfolding join_tables join_tree weight unjoined conds_weight listed marked
  join_tables-weight s conds [] on fresh named k some_slot = absurd (omega arith)
  join_tables-weight s [] ((x, mark) ∷ []) on fresh named k some_slot =
      (scan x, refl, ground (arith, fresh x.tab_name, (str_eq_iff x.tab_name x.tab_name).1 refl))
  join_tables-weight s (c ∷ conds) ((x, mark) ∷ []) on fresh named k some_slot =
      absurd (ground (arith, k.0.left, k.0.right, k.0.apart x.tab_name))
  join_tables-weight s [] ((x, mark) ∷ y ∷ slots) on fresh named k some_slot = (
    join_rest (y ∷ slots) (scan x),
    refl,
    ground (
      arith,
      join_rest-weight w v (y ∷ slots) (scan x),
      fresh x.tab_name,
      (str_eq_iff x.tab_name x.tab_name).1 refl,
    ),
  )
  join_tables-weight s (c ∷ conds) ((x, mark) ∷ y ∷ slots) on fresh named k some_slot =
      let all = (x, mark) ∷ y ∷ slots in
      let (t1, e1, h1, listed1) = first_join-IsTree s c (length all) all on fresh named k.0 in
      let (t2, e2, h2) =
        join_all-IsTree w v (unjoined w v all + v c) conds t1 h1
          (relisted w v all t1.slots listed1 conds k.1) in
      (
        join_rest t2.slots t2.plan,
        rw (e1, e2) refl,
        omega (arith, join_rest-weight w v t2.slots t2.plan, h2.weighed),
      )

  some_listed : (u : Text) (slots : Slots F) → listed u slots ≡ true → 0 < length slots
  unfolding listed
  some_listed u [] h = cc (h)
  some_listed u (x ∷ slots) h = omega arith

  some_named : (tables : List Text) → 0 < length tables → (u : Text) × (has_name u tables ≡ true)
  unfolding has_name
  some_named [] h = absurd (omega (arith, h))
  some_named (t ∷ tables) h = (t, ground (arith, (str_eq_iff t t).1 refl))

  -- Planning the tables, one at least, and the resolved conditions of a query with a join method
  -- enabled returns a plan. For all weights of tables and conditions that do not change when a condition's sides are
  -- exchanged, the plan weighs as much as the query: it has each table and each condition exactly
  -- as often as the query.
  pub make_one_rel-weight :
      (db : DbMeta) (s : Settings) (tables : List Text) (conds : List (Condition F))
      → (s.nestedloop_join || s.sortmerge_join) ≡ true
      → All (λ t. (is_table t db ≡ true) × (str_eq [] t ≡ false)) tables
      → All (IsResolved tables) conds
      → 0 < length tables
      → (p : Plan F) × (make_one_rel db s tables conds ≡ ok p)
        × (weight w v p ≡ tables_weight w tables + conds_weight w v conds)
  unfolding make_one_rel
  make_one_rel-weight db s tables conds on known resolved some_table =
      let (first, named) = some_named tables some_table in
      let (slots, left, e, st) =
        make_scans-IsStart w v (IsResolved tables) db tables conds
          (All-map _ _ (λ t p. p.0) tables known) resolved in
      let links =
        All-map _ (IsLink w v slots) (λ c p. Untaken-IsLink tables slots c st.lists p.0 p.1) left
          st.open_conds in
      let (p, ep, hp) =
        join_tables-weight s left slots on st.unmarked
          (λ u h. all_names db tables u known (sym (st.lists u) ∙ h)) links
          (some_listed first slots (st.lists first ∙ named)) in
      (p, rw e ep, omega (arith, hp, st.weighed))
