-- ===== src/Planner/Index.antt =====
-- `get_index_cols`: the index with the most columns that conditions can use.
use db2024_main.Common.{
  ℕ, All, All-map, Bool, Bool-cases, List, Text, [], arith, false, inl, inr, ltb, ltb→lt,
  ltb_false→le, map, ok, refl, true, ◌<◌, ◌∷◌, ◌≡◌, ◌≤◌, ◌⊎◌, sym,
}
use db2024_main.Catalog.{DbMeta, IndexMeta, TabMeta, get_table}
use db2024_main.Query.{Condition}
use db2024_main.Planner.{best_from, get_index_cols, matched}

-- The index is one of those of the list.
abbrev pub Among : IndexMeta → List IndexMeta → Type 0
Among i [] = ⊥
Among i (j ∷ indexes) = (i ≡ j) ⊎ Among i indexes

abbrev pub names : IndexMeta → List Text
names i = map (λ c. c.name) i.cols

module _ {F : Type 0} (t : Text) (conds : List (Condition F)) where
  abbrev pub use_of : IndexMeta → ℕ
  use_of i = matched t conds i.cols

  record IsBest (best_len : ℕ) (best_index : List Text) (indexes : List IndexMeta)
      (r : ℕ × List Text) : Type 0 where
    above : best_len ≤ r.0
    most : All (λ j. use_of j ≤ r.0) indexes
    from :
        ((r.0 ≡ best_len) × (r.1 ≡ best_index))
        ⊎ ((i : IndexMeta) × Among i indexes × (use_of i ≡ r.0) × (names i ≡ r.1))

  best_from-IsBest :
      (best_len : ℕ) (best_index : List Text) (indexes : List IndexMeta)
      → IsBest best_len best_index indexes (best_from t conds best_len best_index indexes)
  unfolding best_from
  best_from-IsBest best_len best_index [] = record {
    above = omega arith;
    most = tt;
    from = inl (refl, refl);
  }
  best_from-IsBest best_len best_index (i ∷ indexes) = elim (Bool-cases (ltb best_len (use_of i))) [
    | inl e ↦
        let ih = best_from-IsBest (use_of i) (names i) indexes in
        rw e (record {
          above = omega (arith, ih.above, ltb→lt best_len (use_of i) e);
          most = (ih.above, ih.most);
          from = inr (elim ih.from [
            | inl same ↦ (i, inl refl, sym same.0, sym same.1)
            | inr (j, among, k, n) ↦ (j, inr among, k, n)
          ]);
        })
    | inr e ↦
        let ih = best_from-IsBest best_len best_index indexes in
        rw e (record {
          above = ih.above;
          most = (omega (arith, ih.above, ltb_false→le best_len (use_of i) e), ih.most);
          from = elim ih.from [
            | inl same ↦ inl same
            | inr (j, among, k, n) ↦ inr (j, inr among, k, n)
          ];
        })
  ]

  -- For a table of the catalog the choice returns. With the result true it names the columns of an
  -- index of the table of which conditions can use at least one column and no fewer than of any other;
  -- with the result false it names no column, and no index of the table can be used.
  pub get_index_cols-best :
      (db : DbMeta) (tab : TabMeta)
      → get_table t db ≡ ok tab
      → (r : Bool × List Text) × (get_index_cols db t conds ≡ ok r)
        × (((r.0 ≡ true)
              × ((i : IndexMeta) × Among i tab.indexes
                  × (r.1 ≡ names i)
                  × (0 < use_of i)
                  × All (λ j. use_of j ≤ use_of i) tab.indexes))
            ⊎ ((r.0 ≡ false) × (r.1 ≡ []) × All (λ j. use_of j ≡ 0) tab.indexes))
  unfolding get_index_cols
  get_index_cols-best db tab h =
      let best = best_from t conds 0 [] tab.indexes in
      let b = best_from-IsBest 0 [] tab.indexes in
      elim (Bool-cases (ltb 0 best.0)) [
        | inl e ↦ (
          (true, best.1),
          rw (h, e) refl,
          elim b.from [
            | inl same ↦ absurd (omega (arith, same.0, ltb→lt 0 best.0 e))
            | inr (i, among, k, n) ↦ inl (
              refl,
              (
                i,
                among,
                sym n,
                omega (arith, k, ltb→lt 0 best.0 e),
                All-map _ _ (λ j q. omega (arith, q, k)) tab.indexes b.most,
              ),
            )
          ],
        )
        | inr e ↦ (
          (false, []),
          rw (h, e) refl,
          inr (
            refl,
            refl,
            All-map _ _ (λ j q. omega (arith, q, ltb_false→le 0 best.0 e)) tab.indexes b.most,
          ),
        )
      ]
