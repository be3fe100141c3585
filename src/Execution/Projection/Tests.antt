-- ===== src/Execution/Projection/Tests.antt =====
-- The second column of two, and then the first.
use db2024_main.Common.{ℕ, List, [], none, refl, some, ◌∷◌, ◌≡◌, arith, str_eq}
use db2024_main.Query.Eval.{get_col_at}
use db2024_main.Query.Samples.{column, column_name, columns, table_a}
use db2024_main.Execution.Projection.{Column, make_columns, project, total_len}
use db2024_main.Execution.Projection.Pieces.{pieces, project-pieces}

abbrev swapped_columns : List Column
swapped_columns =
    record { out = record (column table_a 1) { offset = 0 }; src = column table_a 1 }
    ∷ record { out = record (column table_a 0) { offset = 4 }; src = column table_a 0 }
    ∷ []

abbrev numbers : List ℕ
numbers = 7 ∷ 0 ∷ 0 ∷ 0 ∷ 9 ∷ 0 ∷ 0 ∷ 0 ∷ []

abbrev ones : List ℕ
ones = 1 ∷ 1 ∷ 1 ∷ 1 ∷ 1 ∷ 1 ∷ 1 ∷ 1 ∷ []

nine_seven : project swapped_columns ones (some numbers) ≡ some (9 ∷ 0 ∷ 0 ∷ 0 ∷ 7 ∷ 0 ∷ 0 ∷ 0 ∷ [])
unfolding project
nine_seven = refl

project-pieces_example :
    (project swapped_columns ones (some numbers) ≡ some (pieces swapped_columns numbers))
    × (project swapped_columns ones none ≡ none)
unfolding make_columns get_col_at str_eq total_len
project-pieces_example =
    project-pieces (columns table_a) (column_name table_a 1 ∷ column_name table_a 0 ∷ []) []
      swapped_columns ones numbers refl (omega arith, (omega arith, tt)) refl
