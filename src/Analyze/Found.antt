-- ===== src/Analyze/Found.antt =====
-- A column that was checked is found in a record of all columns, with the type of the catalog.
use db2024_main.Common.{
  ambiguous_column, column_not_found, All, Bool-cases, List, Option, Result, Text, [], arith, false,
  inl, inr, is_some, none, ok, raise, refl, some, str_eq, str_eq_iff, sym, true, ◌++◌, ◌∷◌, ◌≡◌,
  ◌∙◌, ◌⊎◌, Bool, Error,
}
use db2024_main.Common.Results.{>>=-eq-ok}
use db2024_main.Catalog.{ColMeta, DbMeta, TabMeta, find_col, found_or, get_col, get_table}
use db2024_main.Query.{TabCol}
use db2024_main.Analyze.{check_column, find_table, get_all_cols, is_empty, is_target, with_table}

-- A column with the target's names is there.
abbrev pub IsFound : List ColMeta → TabCol → Type 0
IsFound cols target = is_some (find_col (is_target target) cols) ≡ true

IsFound-cons :
    (c : ColMeta) (cols : List ColMeta) (target : TabCol)
    → IsFound cols target
    → IsFound (c ∷ cols) target
unfolding find_col
IsFound-cons c cols target h = elim (Bool-cases (is_target target c)) [
  | inl e ↦ rw e refl
  | inr e ↦ rw e h
]

find_table-IsFound :
    (n acc t : Text) (cols : List ColMeta)
    → find_table n acc cols ≡ ok t
    → (t ≡ acc) ⊎ IsFound cols (record { tab_name = t; col_name = n })
unfolding find_table find_col
find_table-IsFound n acc t [] h = inl (cc)
find_table-IsFound n acc t (c ∷ cols) h = elim (Bool-cases (str_eq c.name n)) [
  | inl e ↦ elim (Bool-cases (is_empty acc)) [
    | inl f ↦ inr (elim (find_table-IsFound n c.tab_name t cols (rw (e, f) at h)) [
      | inl same ↦ rw (same, e, (str_eq_iff c.tab_name c.tab_name).1 refl) refl
      | inr there ↦ IsFound-cons c cols _ there
    ])
    | inr f ↦
        let no_table : ◌≡◌ {A = Result Text} (raise ambiguous_column) (ok t) = rw (e, f) at h in
        cc (no_table)
  ]
  | inr e ↦ elim (find_table-IsFound n acc t cols (rw e at h)) [
    | inl same ↦ inl same
    | inr there ↦ inr (IsFound-cons c cols _ there)
  ]
]

pub check_column-IsFound :
    (cols : List ColMeta) (target r : TabCol) → check_column cols target ≡ ok r → IsFound cols r
unfolding check_column with_table
check_column-IsFound cols target r h = elim (Bool-cases (is_empty target.tab_name)) [
  | inl e ↦
      let (t, found, named) =
        >>=-eq-ok (find_table target.col_name [] cols) (with_table target) (rw e at h) in
      elim (Bool-cases (is_empty t)) [
        | inl f ↦
            let no_table : ◌≡◌ {A = Result TabCol} (raise column_not_found) (ok r) =
              rw f at named in
            cc (no_table)
        | inr f ↦ elim (find_table-IsFound target.col_name [] t cols found) [
          | inl same ↦ absurd (ground arith)
          | inr there ↦
              let same : r ≡ record target { tab_name = t } = cc (rw f at named) in rw same there
        ]
      ]
  | inr e ↦ elim (Bool-cases (is_some (find_col (is_target target) cols))) [
    | inl f ↦
        let same : ok r ≡ ok target = sym (rw (e, f) at h) in
        let eq : r ≡ target = cc (same) in rw eq f
    | inr f ↦
        let no_column : ◌≡◌ {A = Result TabCol} (raise column_not_found) (ok r) = rw (e, f) at h in
        cc (no_column)
  ]
]

-- The columns of each table carry its name.
pub record IsCatalog (db : DbMeta) : Type 0 where
  pub owned :
      (t : Text) (tab : TabMeta) → get_table t db ≡ ok tab → All (λ c. c.tab_name ≡ t) tab.cols

found_or-ok : (e : Error) (o : Option ColMeta) (c : ColMeta) → found_or e o ≡ ok c → o ≡ some c
found_or-ok e none c h = cc
found_or-ok e (some d) c h = cc

append-some :
    (test : ColMeta → Bool) (a b : List ColMeta) (c : ColMeta)
    → find_col test a ≡ some c
    → find_col test (a ++ b) ≡ some c
unfolding find_col
append-some test [] b c h = cc (h)
append-some test (d ∷ a) b c h = elim (Bool-cases (test d)) [
  | inl e ↦ rw e (rw e at h)
  | inr e ↦ rw e (append-some test a b c (rw e at h))
]

append-none :
    (test : ColMeta → Bool) (a b : List ColMeta)
    → find_col test a ≡ none
    → find_col test (a ++ b) ≡ find_col test b
unfolding find_col
append-none test [] b h = refl
append-none test (d ∷ a) b h = elim (Bool-cases (test d)) [
  | inl e ↦ let found : ◌≡◌ {A = Option ColMeta} (some d) none = rw e at h in cc (found)
  | inr e ↦ rw e (append-none test a b (rw e at h))
]

own_columns :
    (t n : Text) (cols : List ColMeta)
    → All (λ c. c.tab_name ≡ t) cols
    → find_col (is_target (record { tab_name = t; col_name = n })) cols
      ≡ find_col (λ c. str_eq c.name n) cols
unfolding find_col
own_columns t n [] h = refl
own_columns t n (c ∷ cols) h = rw (h.0, (str_eq_iff t t).1 refl, own_columns t n cols h.1) refl

other_columns :
    (t1 t n : Text) (cols : List ColMeta)
    → str_eq t1 t ≡ false
    → All (λ c. c.tab_name ≡ t1) cols
    → find_col (is_target (record { tab_name = t; col_name = n })) cols ≡ none
unfolding find_col
other_columns t1 t n [] d h = refl
other_columns t1 t n (c ∷ cols) d h = rw (h.0, d) (other_columns t1 t n cols d h.1)

-- A column that is found among all columns is that of its table.
pub get_col_at-table :
    (db : DbMeta) (tabs : List Text) (all_cols : List ColMeta) (t n : Text) (tab : TabMeta)
    (c : ColMeta)
    → IsCatalog db
    → get_all_cols db tabs ≡ ok all_cols
    → get_table t db ≡ ok tab
    → get_col n tab.cols ≡ ok c
    → IsFound all_cols (record { tab_name = t; col_name = n })
    → find_col (is_target (record { tab_name = t; col_name = n })) all_cols ≡ some c
unfolding get_all_cols get_col find_col
get_col_at-table db [] all_cols t n tab c k h ht hc f =
    let empty : all_cols ≡ [] = cc (h) in
    let no_column : false ≡ true = rw empty at f in cc (no_column)
get_col_at-table db (t1 ∷ tabs) all_cols t n tab c k h ht hc f =
    let (tab1, e1, h1) = >>=-eq-ok (get_table t1 db) _ h in
    let (rest, e2, h2) = >>=-eq-ok (get_all_cols db tabs) _ h1 in
    let parts : all_cols ≡ tab1.cols ++ rest = cc (h2) in
    elim (Bool-cases (str_eq t1 t)) [
      | inl e ↦
          let same : t1 ≡ t = (str_eq_iff t1 t).0 e in
          let one : ok tab1 ≡ ok tab = sym e1 ∙ rw same ht in
          let tabs_eq : tab1 ≡ tab = cc (one) in
          rw parts (
            append-some _ tab1.cols rest c
              (rw tabs_eq (own_columns t n tab.cols (k.owned t tab ht) ∙ found_or-ok _ _ c hc)))
      | inr e ↦
          let skip =
            append-none (is_target (record { tab_name = t; col_name = n })) tab1.cols rest
              (other_columns t1 t n tab1.cols e (k.owned t1 tab1 e1)) in
          rw (parts, skip)
            (get_col_at-table db tabs rest t n tab c k e2 ht hc (rw (parts, skip) at f))
    ]
