-- ===== src/Analyze/Typed.antt =====
-- What `check_cond` leaves, and the evaluation of it.
use db2024_main.Common.{
  ℕ, All, Bool, Bool-cases, List, [], drop, false, if◌then◌else◌, inl, inr, not, ok, refl, some,
  true, ◌&&◌, ◌∷◌, ◌≡◌, Result,
}
use db2024_main.Common.Results.{◌>>=◌}
use db2024_main.Catalog.{ColMeta, ColType, find_col, type_eq, type_float, type_int, type_string}
use db2024_main.Query.{Condition, Floats, Value}
use db2024_main.Query.Eval.{
  Operand, against, against_value, any_value, equals_value, eval_cond, eval_conds, eval_rhs,
  get_col_at, in_set, is_null, is_numeric_type, lhs_operand,
}
use db2024_main.Analyze.{is_comparable_type, is_target}

-- A checked condition: its left side is a column, and its right side has what its evaluation reads,
-- the bytes of a value, members of a comparable type, or a column.
pub record IsTyped {F : Type 0} (all_cols : List ColMeta) (c : Condition F) : Type 0 where
  pub no_value : c.is_lhs_val ≡ false
  pub one_side : (c.is_rhs_val && c.is_rhs_set) ≡ false
  pub meta : ColMeta
  pub left : find_col (is_target c.lhs_col) all_cols ≡ some meta
  pub value : c.is_rhs_val ≡ true → (raw : List ℕ) × (c.rhs_val.raw ≡ some raw)
  pub members :
      c.is_rhs_set ≡ true
      → All (λ (v : Value F). is_comparable_type meta.type v.type ≡ true) c.rhs_vals
  pub column :
      c.is_rhs_val ≡ false
      → c.is_rhs_set ≡ false
      → (r : ColMeta) × (find_col (is_target c.rhs_col) all_cols ≡ some r)

-- A call that returns.
abbrev Returns : Result Bool → Type 0
Returns r = (b : Bool) × (r ≡ ok b)

Returns-if : (t : Bool) (x y : Result Bool) → Returns x → Returns y → Returns (if t then x else y)
Returns-if true x y h k = h
Returns-if false x y h k = k

bind_ok :
    {A : Type 0} (m : Result A) (a : A) (f : A → Result Bool)
    → m ≡ ok a
    → Returns (f a)
    → Returns (m >>= f)
bind_ok m a f e h = rw e h

comparable-numeric :
    (a b : ColType)
    → type_eq a type_string ≡ false
    → is_comparable_type a b ≡ true
    → (is_numeric_type a && is_numeric_type b) ≡ true
unfolding type_eq is_comparable_type is_numeric_type
comparable-numeric type_int type_int n h = refl
comparable-numeric type_int type_float n h = refl
comparable-numeric type_int type_string n h = cc (h)
comparable-numeric type_float type_int n h = refl
comparable-numeric type_float type_float n h = refl
comparable-numeric type_float type_string n h = cc (h)
comparable-numeric type_string b n h = cc (n)

module _ {F D : Type 0} (fl : Floats F D) where
  any_value-ok :
      (lhs : Operand) (vals : List (Value F))
      → type_eq lhs.type type_string ≡ false
      → All (λ (v : Value F). is_comparable_type lhs.type v.type ≡ true) vals
      → Returns (any_value fl lhs vals)
  unfolding any_value equals_value
  any_value-ok lhs [] n h = (false, refl)
  any_value-ok lhs (v ∷ vals) n h =
      rw (comparable-numeric lhs.type v.type n h.0)
        (Returns-if _ (ok true) _ (true, refl) (any_value-ok lhs vals n h.1))

  against_value-ok :
      (c : Condition F) (lhs : Operand) (raw : List ℕ)
      → c.rhs_val.raw ≡ some raw
      → Returns (against_value fl c lhs)
  unfolding against_value is_null against
  against_value-ok c lhs raw h = rw h (
      Returns-if (type_eq lhs.type type_string && false) _ _ (_, refl)
        (Returns-if
          (is_numeric_type lhs.type
            && is_numeric_type c.rhs_val.type
            && not (type_eq lhs.type c.rhs_val.type))
          _ _ (_, refl) (_, refl)))

  eval_rhs-ok :
      (all_cols : List ColMeta) (rec : List ℕ) (c : Condition F) (h : IsTyped all_cols c)
      (lhs : Operand)
      → lhs.type ≡ h.meta.type
      → Returns (eval_rhs fl all_cols rec c lhs)
  unfolding eval_rhs in_set get_col_at against
  eval_rhs-ok all_cols rec c h lhs e = elim (Bool-cases c.is_rhs_set) [
    | inl s ↦ rw s (elim (Bool-cases (type_eq lhs.type type_string)) [
      | inl t ↦ rw t (_, refl)
      | inr t ↦ rw t (any_value-ok lhs c.rhs_vals t (rw e (h.members s)))
    ])
    | inr s ↦ elim (Bool-cases c.is_rhs_val) [
      | inl v ↦ let (raw, er) = h.value v in rw (s, v) (against_value-ok c lhs raw er)
      | inr v ↦ let (r, er) = h.column v s in rw (s, v, er) (_, refl)
    ]
  ]

  eval_cond-ok :
      (all_cols : List ColMeta) (rec : List ℕ) (c : Condition F)
      → IsTyped all_cols c
      → Returns (eval_cond fl all_cols rec c)
  unfolding eval_cond lhs_operand get_col_at
  eval_cond-ok all_cols rec c h =
      let lhs : Operand = record {
        bytes = drop h.meta.offset rec;
        type = h.meta.type;
        len = h.meta.len;
      } in
      Returns-if c.is_rhs_null (ok false) _ (false, refl)
        (bind_ok (lhs_operand fl all_cols rec c) lhs (eval_rhs fl all_cols rec c)
          (rw (h.no_value, h.left) refl) (eval_rhs-ok all_cols rec c h lhs refl))

  pub eval_conds-ok :
      (all_cols : List ColMeta) (rec : List ℕ) (conds : List (Condition F))
      → All (IsTyped all_cols) conds
      → (b : Bool) × (eval_conds fl all_cols rec conds ≡ ok b)
  unfolding eval_conds
  eval_conds-ok all_cols rec [] h = (true, refl)
  eval_conds-ok all_cols rec (c ∷ conds) h =
      let (b, e) = eval_cond-ok all_cols rec c h.0 in
      let (bs, es) = eval_conds-ok all_cols rec conds h.1 in
      rw (e, es) (Returns-if b (ok bs) (ok false) (bs, refl) (false, refl))
