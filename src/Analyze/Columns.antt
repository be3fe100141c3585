-- ===== src/Analyze/Columns.antt =====
-- `check_column` for a name without a table.
use db2024_main.Common.{
  All, Bool-cases, List, Result, Text, [], ambiguous_column, column_not_found, false, if◌then◌else◌,
  inl, inr, ok, raise, refl, str_eq, ◌∷◌, ◌≡◌,
}
use db2024_main.Common.Results.{◌>>=◌}
use db2024_main.Catalog.{ColMeta}
use db2024_main.Query.{TabCol}
use db2024_main.Analyze.{check_column, find_table, is_empty, with_table}

-- The columns of that name.
unfoldable pub called : Text → List ColMeta → List ColMeta
called n [] = []
called n (c ∷ cols) = if str_eq c.name n then c ∷ called n cols else called n cols

-- The answer for the columns of the name `n`.
abbrev pub resolved : Text → List ColMeta → Result TabCol
resolved n [] = raise column_not_found
resolved n (c ∷ []) = ok (record { tab_name = c.tab_name; col_name = n })
resolved n (c ∷ d ∷ cols) = raise ambiguous_column

-- The answer after one column of the name was met.
abbrev after_one : Text → List ColMeta → Result Text
after_one t [] = ok t
after_one t (c ∷ cols) = raise ambiguous_column

abbrev HaveTables : List ColMeta → Type 0
HaveTables cols = All (λ c. is_empty c.tab_name ≡ false) cols

find_table-after :
    (n t : Text) (cols : List ColMeta)
    → is_empty t ≡ false
    → find_table n t cols ≡ after_one t (called n cols)
unfolding find_table called
find_table-after n t [] h = refl
find_table-after n t (c ∷ cols) h = elim (Bool-cases (str_eq c.name n)) [
  | inl e ↦ rw (e, h) refl
  | inr e ↦ rw e (find_table-after n t cols h)
]

-- Columns of tables with names: a column that is named without its table is resolved if exactly one
-- of them has the name, to that column with its table; it is not found if none has the name, and
-- ambiguous if several have.
pub check_column-unqualified :
    (cols : List ColMeta) (n : Text)
    → All (λ c. is_empty c.tab_name ≡ false) cols
    → check_column cols (record { tab_name = []; col_name = n }) ≡ resolved n (called n cols)
unfolding check_column find_table with_table called is_empty
check_column-unqualified [] n h = refl
check_column-unqualified (c ∷ cols) n h = elim (Bool-cases (str_eq c.name n)) [
  | inl e ↦ rw (e, find_table-after n c.tab_name cols h.0) (one (called n cols))
  | inr e ↦ rw e (check_column-unqualified cols n h.1)
]
  where
    one :
        (rest : List ColMeta)
        → (after_one c.tab_name rest >>= with_table (record { tab_name = []; col_name = n }))
          ≡ resolved n (c ∷ rest)
    one [] = rw h.0 refl
    one (d ∷ rest) = refl
