-- ===== src/Planner/Tables.antt =====
-- `make_scans`: a scan for each table, with the conditions that `pop_conds` gives it.
use db2024_main.Common.{
  text_eq, ℕ, Bool-cases, List, Text, [], arith, false, inl, inr, ok, refl, str_eq, true, ◌+◌, ◌∷◌,
  ◌≡◌, All, All-map, str_eq_iff, lookup, Option-cases, ltb, Option-cases, lookup,
}
use db2024_main.Catalog.{DbMeta, get_table, is_table, TabMeta}
use db2024_main.Query.{Condition}
use db2024_main.Planner.{
  ScanPlan, Slots, get_index_cols, has_name, make_scan, best_from, index_scan, seq_scan, tuple_len,
  make_scans, pop_conds, scan_table, takes,
}
use db2024_main.Planner.Weight.{conds_weight, scan_weight, tables_weight, unjoined}
use db2024_main.Planner.Scans.{listed, marked}

pop_conds-All :
    {F : Type 0} (P : Condition F → Type 0) (t : Text) (conds : List (Condition F))
    → All P conds
    → All (λ c. P c × (takes t c ≡ false)) (pop_conds t conds).1
unfolding pop_conds
pop_conds-All P t [] h = tt
pop_conds-All P t (c ∷ conds) h = elim (Bool-cases (takes t c)) [
  | inl e ↦ rw e (pop_conds-All P t conds h.1)
  | inr e ↦ rw e ((h.0, e), pop_conds-All P t conds h.1)
]

pop_conds-weight :
    {F : Type 0} (w : Text → ℕ) (v : Condition F → ℕ) (t : Text) (conds : List (Condition F))
    → conds_weight w v (pop_conds t conds).0 + conds_weight w v (pop_conds t conds).1
      ≡ conds_weight w v conds
unfolding pop_conds conds_weight
pop_conds-weight w v t [] = omega arith
pop_conds-weight w v t (c ∷ conds) = elim (Bool-cases (takes t c)) [
  | inl e ↦ rw e (omega (arith, pop_conds-weight w v t conds))
  | inr e ↦ rw e (omega (arith, pop_conds-weight w v t conds))
]

get_table-ok :
    (t : Text) (db : DbMeta) → is_table t db ≡ true → (tab : TabMeta) × (get_table t db ≡ ok tab)
unfolding is_table get_table
get_table-ok t db h = elim (Option-cases (lookup t db.tabs)) [
  | inl e ↦ absurd (ground arith)
  | inr (tab, e) ↦ (tab, rw e refl)
]

scan_table-ok :
    {F : Type 0} (t : Text) (db : DbMeta) (conds : List (Condition F))
    → is_table t db ≡ true
    → (x : ScanPlan F) × (scan_table db t conds ≡ ok x) × (x.tab_name ≡ t) × (x.conds ≡ conds)
unfolding scan_table get_index_cols make_scan
scan_table-ok t db conds h =
    let (tab, e) = get_table-ok t db h in
    elim (Bool-cases (ltb 0 (best_from t conds 0 [] tab.indexes).0)) [
      | inl b ↦ (
        record {
          tag = index_scan;
          tab_name = t;
          cols = tab.cols;
          conds = conds;
          len = tuple_len tab.cols;
          fed_conds = conds;
          index_col_names = (best_from t conds 0 [] tab.indexes).1;
        },
        rw (e, b) refl,
        refl,
        refl,
      )
      | inr b ↦ (
        record {
          tag = seq_scan;
          tab_name = t;
          cols = tab.cols;
          conds = conds;
          len = tuple_len tab.cols;
          fed_conds = conds;
          index_col_names = [];
        },
        rw (e, b) refl,
        refl,
        refl,
      )
    ]

-- No table takes the condition.
abbrev pub Untaken : {F : Type 0} → List Text → Condition F → Type 0
Untaken tables c = (t : Text) → has_name t tables ≡ true → takes t c ≡ false

Untaken-cons :
    {F : Type 0} (t : Text) (tables : List Text) (c : Condition F)
    → takes t c ≡ false
    → Untaken tables c
    → Untaken (t ∷ tables) c
unfolding has_name
Untaken-cons t tables c h k u m = elim (Bool-cases (str_eq t u)) [
  | inl e ↦ rw (← (str_eq_iff t u).0 e) h
  | inr e ↦ k u (rw e at m)
]

module _ {F : Type 0} (w : Text → ℕ) (v : Condition F → ℕ) where
  pub record IsStart (P : Condition F → Type 0) (tables : List Text) (conds : List (Condition F))
      (s : Slots F) (left : List (Condition F)) : Type 0 where
    pub weighed :
        unjoined w v s + conds_weight w v left ≡ tables_weight w tables + conds_weight w v conds
    pub lists : (u : Text) → listed u s ≡ has_name u tables
    pub unmarked : (u : Text) → marked u s ≡ false
    pub open_conds : All (λ c. P c × Untaken tables c) left

  pub make_scans-IsStart :
      (P : Condition F → Type 0) (db : DbMeta) (tables : List Text) (conds : List (Condition F))
      → All (λ t. is_table t db ≡ true) tables
      → All P conds
      → (s : Slots F) × (left : List (Condition F)) × (make_scans db tables conds ≡ ok (s, left))
        × IsStart P tables conds s left
  unfolding make_scans unjoined tables_weight listed marked has_name scan_weight
  make_scans-IsStart P db [] conds k h = (
    [],
    conds,
    refl,
    record {
      weighed = omega arith;
      lists = λ u. refl;
      unmarked = λ u. refl;
      open_conds = All-map P _ (λ c p. (p, λ u k2. cc (k2))) conds h;
    },
  )
  make_scans-IsStart P db (t ∷ tables) conds k h =
      let (x, ex, named, has) = scan_table-ok t db (pop_conds t conds).0 k.0 in
      let (s, left, es, st) =
        make_scans-IsStart (λ c. P c × (takes t c ≡ false)) db tables (pop_conds t conds).1 k.1
          (pop_conds-All P t conds h) in
      (
        (x, false) ∷ s,
        left,
        rw (ex, es) refl,
        record {
          weighed = rw (named, has) (omega (arith, st.weighed, pop_conds-weight w v t conds));
          lists = λ u. rw (named, st.lists u) refl;
          unmarked = λ u. ground (arith, st.unmarked u);
          open_conds =
              All-map _ _ (λ c p. (p.0.0, λ u k2. Untaken-cons t tables c p.0.1 p.1 u k2)) left
                st.open_conds;
        },
      )
