-- ===== src/Analyze/Tests.antt =====
-- The analysis of conditions on two tables.
use db2024_main.Common.{
  ℕ, All, Bool, List, Text, [], none, ok, refl, ◌∷◌, ◌≡◌, ◌++◌, Bool-cases, Result, inl, inr,
  lookup, raise, str_eq, str_eq_iff, table_not_found, int_bytes,
}
use db2024_main.Common.Results.{map_result}
use db2024_main.Catalog.{TabMeta, get_table, get_col, type_eq}
use db2024_main.Query.{Condition, Value, op_eq, op_gt}
use db2024_main.Query.Eval.{eval_conds}
use db2024_main.Query.Samples.{
  column_name, columns, columns_cond, int_value, sample_db, table, sample_floats, table_a, table_b,
  value_cond,
}
use db2024_main.Analyze.{check_clause, check_column}
use db2024_main.Analyze.Columns.{called, check_column-unqualified, resolved}
use db2024_main.Analyze.Found.{IsCatalog}
use db2024_main.Analyze.Sound.{check_clause-evaluates}

check_column-unqualified_example :
    check_column (columns table_a) (record { tab_name = []; col_name = b'q' ∷ [] })
    ≡ resolved (b'q' ∷ []) (called (b'q' ∷ []) (columns table_a))
unfolding check_column
check_column-unqualified_example =
    check_column-unqualified (columns table_a) (b'q' ∷ []) (refl, (refl, tt))

-- A literal as the analysis meets it, without bytes.
abbrev literal : ℕ → Value ℕ
literal n = record (int_value n) { raw = none }

abbrev filter : Condition ℕ
filter = record (value_cond (column_name table_a 0) op_gt 5) { rhs_val = literal 5 }

abbrev checked_filter : Condition ℕ
checked_filter = value_cond (column_name table_a 0) op_gt 5

abbrev link : Condition ℕ
link = columns_cond (column_name table_a 0) op_eq (column_name table_b 1)

abbrev both : List Text
both = table_a ∷ table_b ∷ []

sample_tables :
    (t : Text) (tab : TabMeta) → get_table t sample_db ≡ ok tab → All (λ c. c.tab_name ≡ t) tab.cols
unfolding get_table lookup
sample_tables t tab h = elim (Bool-cases (str_eq table_a t)) [
  | inl e ↦
      let found : table table_a ≡ tab = cc (rw e at h) in
      rw (← found, (str_eq_iff table_a t).0 e) (refl, (refl, tt))
  | inr e ↦ elim (Bool-cases (str_eq table_b t)) [
    | inl f ↦
        let found : table table_b ≡ tab = cc (rw (e, f) at h) in
        rw (← found, (str_eq_iff table_b t).0 f) (refl, (refl, tt))
    | inr f ↦
        let missing : ◌≡◌ {A = Result TabMeta} (raise table_not_found) (ok tab) = rw (e, f) at h in
        cc (missing)
  ]
]

sample_db-IsCatalog : IsCatalog sample_db
sample_db-IsCatalog = record { owned = sample_tables }

check_clause-evaluates_example :
    (b : Bool) × (eval_conds sample_floats
        (columns table_a ++ columns table_b)
        []
        (checked_filter ∷ link ∷ [])
      ≡ ok b)
unfolding check_clause lookup str_eq map_result check_column get_col type_eq int_bytes
check_clause-evaluates_example =
    check_clause-evaluates sample_floats sample_db both (columns table_a ++ columns table_b)
      (filter ∷ link ∷ []) (checked_filter ∷ link ∷ []) [] sample_db-IsCatalog refl
      ((refl, refl), ((refl, refl), tt)) refl
