-- ===== src/Planner/Foreign.antt =====
-- `pop_conds` and a condition between two columns of one table.
use db2024_main.Common.{
  ℕ, All, List, Text, [], arith, column_not_found, false, raise, refl, str_eq, true, ◌∷◌, ◌≡◌, Bool,
  Bool-cases, Error, Result, ap, inl, inr, ok, ◌++◌, ◌∙◌, ◌⊎◌,
}
use db2024_main.Catalog.{ColMeta}
use db2024_main.Query.{Condition, Floats, TabCol}
use db2024_main.Query.Eval.{eval_cond, eval_conds, get_col_at}
use db2024_main.Planner.{pop_conds, takes}

Result-cases : {A : Type 0} (r : Result A) → ((a : A) × (r ≡ ok a)) ⊎ ((e : Error) × (r ≡ raise e))
Result-cases (ok a) = inl (a, refl)
Result-cases (raise e) = inr (e, refl)

-- No column of another table is found.
get_col_at-foreign :
    (cols : List ColMeta) (target : TabCol)
    → All (λ c. str_eq c.tab_name target.tab_name ≡ false) cols
    → get_col_at cols target ≡ raise column_not_found
unfolding get_col_at
get_col_at-foreign [] target h = refl
get_col_at-foreign (c ∷ cols) target h = rw h.0 (get_col_at-foreign cols target h.1)

module _ {F D : Type 0} (fl : Floats F D) where
  -- Conditions that hold are passed by.
  eval_conds-append :
      (cols : List ColMeta) (rec : List ℕ) (first rest : List (Condition F))
      → eval_conds fl cols rec first ≡ ok true
      → eval_conds fl cols rec (first ++ rest) ≡ eval_conds fl cols rec rest
  unfolding eval_conds
  eval_conds-append cols rec [] rest h = refl
  eval_conds-append cols rec (c ∷ first) rest h = elim (Result-cases (eval_cond fl cols rec c)) [
    | inl (true, e) ↦ rw e (eval_conds-append cols rec first rest (rw e at h))
    | inl (false, e) ↦ let no : ◌≡◌ {A = Result Bool} (ok false) (ok true) = rw e at h in cc (no)
    | inr (err, e) ↦ let no : ◌≡◌ {A = Result Bool} (raise err) (ok true) = rw e at h in cc (no)
  ]

  -- The conditions that are taken keep their order.
  pop_conds-append :
      (t : Text) (before conds : List (Condition F))
      → (pop_conds t (before ++ conds)).0 ≡ (pop_conds t before).0 ++ (pop_conds t conds).0
  unfolding pop_conds
  pop_conds-append t [] conds = refl
  pop_conds-append t (c ∷ before) conds = elim (Bool-cases (takes t c)) [
    | inl e ↦ rw (e, pop_conds-append t before conds) refl
    | inr e ↦ rw (e, pop_conds-append t before conds) refl
  ]

  -- A condition between two columns of one table goes to the table that is planned first, whichever
  -- it is. If that is another table, its scan throws, since the column is not found, on every record
  -- on which the conditions that are taken before it hold.
  pub pop_conds-foreign :
      (t : Text) (before : List (Condition F)) (c : Condition F) (conds : List (Condition F))
      (cols : List ColMeta) (rec : List ℕ)
      → c.is_lhs_val ≡ false
      → c.is_rhs_val ≡ false
      → c.is_rhs_set ≡ false
      → c.is_rhs_null ≡ false
      → str_eq c.lhs_col.tab_name c.rhs_col.tab_name ≡ true
      → All (λ col. str_eq col.tab_name c.lhs_col.tab_name ≡ false) cols
      → eval_conds fl cols rec (pop_conds t before).0 ≡ ok true
      → eval_conds fl cols rec (pop_conds t (before ++ c ∷ conds)).0 ≡ raise column_not_found
  unfolding pop_conds takes eval_conds eval_cond
  pop_conds-foreign t before c conds cols rec nl nv ns nn same other holds =
      let taken : takes t c ≡ true = ground arith in
      let thrown : eval_conds fl cols rec (pop_conds t (c ∷ conds)).0 ≡ raise column_not_found =
        rw (taken, nn, nl, get_col_at-foreign cols c.lhs_col other) refl in
      ap (eval_conds fl cols rec) (pop_conds-append t before (c ∷ conds))
      ∙ eval_conds-append cols rec (pop_conds t before).0 (pop_conds t (c ∷ conds)).0 holds
      ∙ thrown
