-- ===== src/Planner/Tests.antt =====
-- A query on two tables.
use db2024_main.Common.{
  ℕ, Bool, List, Text, [], All, arith, column_not_found, false, inl, inr, ok, raise, refl, true,
  ◌+◌, ◌<◌, ◌≤◌, ◌∷◌, ◌≡◌, ◌⊎◌, ◌≢◌, ap, lookup, str_eq, int_lt, read_int,
}
use db2024_main.Catalog.{type_eq, IndexMeta, get_table, is_table}
use db2024_main.Query.{CompOp, Condition, op_eq, op_gt, op_in}
use db2024_main.Query.Eval.{eval_conds, get_col_at, is_numeric_type, compare_result}
use db2024_main.Query.Samples.{
  column_name, columns, columns_cond, sample_db, sample_floats, table, table_a, table_b, value_cond,
}
use db2024_main.Planner.{takes, Plan, Settings, get_index_cols, has_name, make_one_rel, pop_conds}
use db2024_main.Planner.Weight.{conds_weight, tables_weight, weight}
use db2024_main.Planner.Relation.{IsResolved, make_one_rel-weight}
use db2024_main.Planner.Foreign.{pop_conds-foreign}
use db2024_main.Planner.Index.{Among, get_index_cols-best, names, use_of}

abbrev default_settings : Settings
default_settings = record { nestedloop_join = true; sortmerge_join = false }

abbrev two_tables : List Text
two_tables = table_a ∷ table_b ∷ []

abbrev join_cond : Condition ℕ
join_cond = columns_cond (column_name table_a 0) op_eq (column_name table_b 1)

abbrev filter_cond : Condition ℕ
filter_cond = value_cond (column_name table_b 0) op_gt 5

is_in : CompOp → Bool
is_in op_in = true
is_in _ = false

eq-ne-in : op_eq ≢ op_in
unfolding is_in
eq-ne-in h = absurd (ground (arith, ap is_in h))

join_cond-IsResolved : IsResolved two_tables join_cond
unfolding has_name str_eq
join_cond-IsResolved = record { no_value = refl; left = refl; right = inr (refl, eq-ne-in) }

filter_cond-IsResolved : IsResolved two_tables filter_cond
unfolding has_name str_eq
filter_cond-IsResolved = record { no_value = refl; left = refl; right = inl refl }

make_one_rel-weight_example :
    (p : Plan ℕ) × (make_one_rel sample_db default_settings two_tables
        (join_cond ∷ filter_cond ∷ [])
      ≡ ok p)
    × (weight (λ t. 1) (λ (c : Condition ℕ). 1) p
        ≡ tables_weight (λ t. 1) two_tables
          + conds_weight (λ t. 1) (λ (c : Condition ℕ). 1) (join_cond ∷ filter_cond ∷ []))
unfolding is_table lookup str_eq
make_one_rel-weight_example =
    make_one_rel-weight (λ t. 1) (λ (c : Condition ℕ). 1) (λ c c2 e. refl) sample_db
      default_settings two_tables (join_cond ∷ filter_cond ∷ []) refl
      ((refl, refl), ((refl, refl), tt)) (join_cond-IsResolved, (filter_cond-IsResolved, tt))
      (omega arith)

-- A row of the second table that meets the condition on it.
abbrev row : List ℕ
row = 7 ∷ 0 ∷ 0 ∷ 0 ∷ 1 ∷ 0 ∷ 0 ∷ 0 ∷ []

filter_holds :
    eval_conds sample_floats (columns table_b) row (pop_conds table_b (filter_cond ∷ [])).0
    ≡ ok true
unfolding pop_conds takes eval_conds str_eq get_col_at type_eq is_numeric_type compare_result int_lt
    read_int
filter_holds = refl

pop_conds-foreign_example :
    eval_conds sample_floats
      (columns table_b)
      row
      (pop_conds table_b
        (filter_cond ∷ columns_cond (column_name table_a 0) op_eq (column_name table_a 1) ∷ [])).0
    ≡ raise column_not_found
unfolding str_eq
pop_conds-foreign_example =
    pop_conds-foreign sample_floats table_b (filter_cond ∷ [])
      (columns_cond (column_name table_a 0) op_eq (column_name table_a 1)) [] (columns table_b) row
      refl refl refl refl refl (refl, (refl, tt)) filter_holds

get_index_cols-best_example :
    (r : Bool × List Text) × (get_index_cols sample_db table_b (filter_cond ∷ []) ≡ ok r)
    × (((r.0 ≡ true)
          × ((i : IndexMeta) × Among i (table table_b).indexes
              × (r.1 ≡ names i)
              × (0 < use_of table_b (filter_cond ∷ []) i)
              × All
                  (λ j. use_of table_b (filter_cond ∷ []) j ≤ use_of table_b (filter_cond ∷ []) i)
                  (table table_b).indexes))
        ⊎ ((r.0 ≡ false)
            × (r.1 ≡ [])
            × All (λ j. use_of table_b (filter_cond ∷ []) j ≡ 0) (table table_b).indexes))
unfolding get_table lookup str_eq
get_index_cols-best_example =
    get_index_cols-best table_b (filter_cond ∷ []) sample_db (table table_b) refl
