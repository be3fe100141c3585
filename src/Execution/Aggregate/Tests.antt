-- ===== src/Execution/Aggregate/Tests.antt =====
-- Three records of two numbers, grouped by the first and counted.
use db2024_main.Common.{
  text_eq, ℕ, List, Option, Text, [], lookup, ok, refl, some, true, ◌∷◌, ◌≡◌, map, insert, str_eq,
}
use db2024_main.Common.Results.{map_result, ◌>>=◌}
use db2024_main.Query.{TabCol}
use db2024_main.Query.Eval.{get_col_at}
use db2024_main.Query.Samples.{column, column_name, columns, sample_floats, table_a}
use db2024_main.Execution.Aggregate.{AggSpec, Groups, add_records, agg_count_star}
use db2024_main.Execution.Aggregate.Partition.{add_records-groups, first_keys, group_of, members}

abbrev row : ℕ → ℕ → Option (List ℕ)
row a b = some (a ∷ 0 ∷ 0 ∷ 0 ∷ b ∷ 0 ∷ 0 ∷ 0 ∷ [])

abbrev three_rows : List (Option (List ℕ))
three_rows = row 1 5 ∷ row 2 6 ∷ row 1 7 ∷ []

abbrev count_star : AggSpec
count_star = record { agg_type = agg_count_star; has_col = true; col_meta = column table_a 1 }

abbrev by_first : List TabCol
by_first = column_name table_a 0 ∷ []

-- The counts of the groups, in the order of the table.
counts : Groups ℕ ℕ → List (List ℕ)
counts gs = map (λ p. map (λ s. s.count) p.1.agg_states) gs.groups

three_counts :
    (add_records sample_floats
        (columns table_a)
        by_first
        (count_star ∷ [])
        three_rows
        (record { groups = []; group_order = [] })
      >>= λ gs. ok (counts gs))
    ≡ ok ((2 ∷ []) ∷ (1 ∷ []) ∷ [])
unfolding counts add_records map_result get_col_at str_eq lookup insert
three_counts = refl

add_records-groups_example :
    (gs : Groups ℕ ℕ) × (add_records sample_floats
        (columns table_a)
        by_first
        (count_star ∷ [])
        three_rows
        (record { groups = []; group_order = [] })
      ≡ ok gs)
    × ((k : Text)
        → lookup k gs.groups
          ≡ group_of sample_floats
              (count_star ∷ [])
              (column table_a 0 ∷ [])
              (members (column table_a 0 ∷ []) k three_rows))
    × (gs.group_order ≡ first_keys (column table_a 0 ∷ []) [] three_rows)
unfolding add_records map_result get_col_at str_eq
add_records-groups_example =
    add_records-groups sample_floats (count_star ∷ []) (columns table_a) by_first
      (column table_a 0 ∷ []) refl three_rows
