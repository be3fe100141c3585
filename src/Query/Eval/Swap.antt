-- ===== src/Query/Eval/Swap.antt =====
-- The two sides of a condition on columns, exchanged: `swap_op` of optimizer/planner.cpp against the
-- comparison of execution/executor_abstract.h.
use db2024_main.Common.{
  ℕ, ℤ, Bool, List, [], arith, false, if◌then◌else◌, drop, ◌∙◌, int_eq, int_lt, negsuc, ok, pos,
  refl, sign, strncmp, suc, true, zero, ◌∷◌, ◌≡◌,
}
use db2024_main.Common.Results.{>>=-eq-ok}
use db2024_main.Catalog.{ColMeta, ColType, type_float, type_int, type_string}
use db2024_main.Query.{
  CompOp, Condition, Floats, op_eq, op_ge, op_gt, op_in, op_le, op_lt, op_ne, swap_op, swap_sides,
}
use db2024_main.Query.Eval.{compare_raw, compare_result, eval_cond, get_col_at}

abbrev negated : ℤ → ℤ
negated (pos zero) = pos zero
negated (pos (suc n)) = negsuc n
negated (negsuc n) = pos (suc n)

sign-negated : (a b : Bool) → sign b a ≡ negated (sign a b)
sign-negated true true = refl
sign-negated true false = refl
sign-negated false true = refl
sign-negated false false = refl

strncmp-negated : (a b : List ℕ) (n : ℕ) → strncmp b a n ≡ negated (strncmp a b n)
unfolding strncmp
strncmp-negated a b zero = refl
strncmp-negated [] [] (suc n) = refl
strncmp-negated [] (y ∷ ys) (suc n) = sign-negated _ _
strncmp-negated (x ∷ xs) [] (suc n) = sign-negated _ _
strncmp-negated (x ∷ xs) (y ∷ ys) (suc n) = ground (arith, strncmp-negated xs ys n)

compare_result-negated :
    (c : ℤ) (op swapped : CompOp)
    → swap_op op ≡ ok swapped
    → compare_result (negated c) swapped ≡ compare_result c op
unfolding compare_result swap_op int_eq int_lt
compare_result-negated c op_eq swapped h = ground arith
compare_result-negated c op_ne swapped h = ground arith
compare_result-negated c op_lt swapped h = ground arith
compare_result-negated c op_gt swapped h = ground arith
compare_result-negated c op_le swapped h = ground arith
compare_result-negated c op_ge swapped h = ground arith
compare_result-negated c op_in swapped h = cc

module _ {F D : Type 0} (fl : Floats F D) where
  compare_raw-negated :
      (a b : List ℕ) (t : ColType) (n : ℕ)
      → compare_raw fl b a t n ≡ negated (compare_raw fl a b t n)
  unfolding compare_raw
  compare_raw-negated a b type_int n = sign-negated _ _
  compare_raw-negated a b type_float n = sign-negated _ _
  compare_raw-negated a b type_string n = strncmp-negated a b n

  columns-eval_cond :
      (rec_cols : List ColMeta) (rec : List ℕ) (cond : Condition F) (l r : ColMeta)
      → cond.is_lhs_val ≡ false
      → cond.is_rhs_val ≡ false
      → cond.is_rhs_set ≡ false
      → get_col_at rec_cols cond.lhs_col ≡ ok l
      → get_col_at rec_cols cond.rhs_col ≡ ok r
      → eval_cond fl rec_cols rec cond ≡ (
          if cond.is_rhs_null
          then ok false
          else ok (
              compare_result
                (compare_raw fl (drop l.offset rec) (drop r.offset rec) l.type l.len)
                cond.op))
  unfolding eval_cond
  columns-eval_cond rec_cols rec cond l r nl nv ns hl hr = rw (nl, nv, ns, hl, hr) refl

  -- The evaluation with the bytes and the operator exchanged.
  exchanged :
      (a b : List ℕ) (t : ColType) (n : ℕ) (op swapped : CompOp)
      → swap_op op ≡ ok swapped
      → compare_result (compare_raw fl b a t n) swapped ≡ compare_result (compare_raw fl a b t n) op
  exchanged a b t n op swapped h =
      rw (compare_raw-negated a b t n) (compare_result-negated _ op swapped h)

  -- A condition between two columns of the same type and length gives the same answer on every
  -- record after the planner has exchanged its sides and its operator.
  pub eval_cond-swap_sides :
      (rec_cols : List ColMeta) (rec : List ℕ) (cond swapped : Condition F) (l r : ColMeta)
      → cond.is_lhs_val ≡ false
      → cond.is_rhs_val ≡ false
      → cond.is_rhs_set ≡ false
      → get_col_at rec_cols cond.lhs_col ≡ ok l
      → get_col_at rec_cols cond.rhs_col ≡ ok r
      → l.type ≡ r.type
      → l.len ≡ r.len
      → swap_sides cond ≡ ok swapped
      → eval_cond fl rec_cols rec swapped ≡ eval_cond fl rec_cols rec cond
  unfolding swap_sides
  eval_cond-swap_sides rec_cols rec cond swapped l r nl nv ns hl hr ht hn hs =
      let (op, ho, made) = >>=-eq-ok (swap_op cond.op) _ hs in
      let same : swapped ≡ record cond { lhs_col = cond.rhs_col; rhs_col = cond.lhs_col; op = op } =
        cc (made) in
      rw (same, columns-eval_cond rec_cols rec cond l r nl nv ns hl hr)
        (columns-eval_cond rec_cols rec _ r l nl nv ns hr hl
          ∙ rw
              (
                ← ht,
                ← hn,
                exchanged (drop l.offset rec) (drop r.offset rec) l.type l.len cond.op op ho,
              )
              refl)
