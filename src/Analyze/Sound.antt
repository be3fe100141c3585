-- ===== src/Analyze/Sound.antt =====
-- `check_clause`: the conditions that pass it can be evaluated.
use db2024_main.Common.{
  ℕ, All, Bool, List, Text, arith, false, inl, inr, ok, some, sym, true, ◌&&◌, ◌≡◌, ◌∙◌,
  Option-cases, subst,
}
use db2024_main.Common.Results.{>>=-eq-ok}
use db2024_main.Catalog.{ColMeta, ColType, DbMeta, find_col}
use db2024_main.Query.{Condition, Floats, TabCol, Value}
use db2024_main.Query.Eval.{eval_conds}
use db2024_main.Analyze.{
  Side, check_clause, check_cond, check_end, check_right, get_all_cols, is_comparable_type,
  is_target, left_side, resolve_left, resolve_right,
}
use db2024_main.Analyze.Found.{IsCatalog, IsFound, get_col_at-table}
use db2024_main.Analyze.Typed.{IsTyped, eval_conds-ok}
use db2024_main.Analyze.Stages.{
  left_side-ok, map_result-All_from, resolve_left-Keeps, resolve_right-Keeps,
}
use db2024_main.Analyze.Rights.{check_end-ok, check_right-IsRight}

IsFound-some :
    (cols : List ColMeta) (target : TabCol)
    → IsFound cols target
    → (c : ColMeta) × (find_col (is_target target) cols ≡ some c)
IsFound-some cols target h = elim (Option-cases (find_col (is_target target) cols)) [
  | inl e ↦ let nothing : false ≡ true = rw e at h in cc (nothing)
  | inr (c, e) ↦ (c, e)
]

module _ {F D : Type 0} (fl : Floats F D) where
  module _ (db : DbMeta) (tabs : List Text) (cols : List ColMeta) (owned : IsCatalog db)
      (all : get_all_cols db tabs ≡ ok cols) where
    stages-IsTyped :
        (c c1 c2 c3 d : Condition F) (lhs : Side) (t : ColType)
        → c.is_rhs_subquery ≡ false
        → (c.is_rhs_val && c.is_rhs_set) ≡ false
        → resolve_left fl cols c ≡ ok c1
        → resolve_right fl cols c1 ≡ ok c2
        → left_side fl db c2 ≡ ok lhs
        → check_right fl db lhs c2 ≡ ok (c3, t)
        → check_end fl lhs (c3, t) ≡ ok d
        → IsTyped cols d
    stages-IsTyped c c1 c2 c3 d lhs t n one e1 e2 e3 e4 e5 =
        let (k1, found) = resolve_left-Keeps fl cols c c1 e1 in
        let (k2, same_left, found_right) = resolve_right-Keeps fl cols c1 c2 e2 in
        let r = check_right-IsRight fl db lhs c2 c3 t e4 in
        let k3 = r.keeps in
        let (same, no_value) =
          check_end-ok fl lhs c3 d t (k3.subquery ∙ k2.subquery ∙ k1.subquery ∙ n) e5 in
        let left2 : c2.is_lhs_val ≡ false = sym k3.lhs_val ∙ no_value in
        let (tab, meta, et, em, typed) = left_side-ok fl db c2 lhs left2 e3 in
        let here = found (sym k1.lhs_val ∙ sym k2.lhs_val ∙ left2) in
        let there =
          get_col_at-table db tabs cols c2.lhs_col.tab_name c2.lhs_col.col_name tab meta owned all
            et em (rw same_left here) in
        rw same (record {
          no_value = no_value;
          one_side =
              rw (k3.rhs_val, k3.rhs_set, k2.rhs_val, k2.rhs_set, k1.rhs_val, k1.rhs_set) one;
          meta = meta;
          left = rw r.same_left there;
          value = λ v. r.value left2 (sym k3.rhs_val ∙ v);
          members = λ v.
              subst (λ x. All (λ (u : Value F). is_comparable_type x u.type ≡ true) c3.rhs_vals)
                typed
                (r.members left2
                  (ground (arith, one, k1.rhs_val, k2.rhs_val, k1.rhs_set, k2.rhs_set, k3.rhs_set))
                  (sym k3.rhs_set ∙ v));
          column = λ v w. rw r.same_right (
              IsFound-some cols c2.rhs_col (
                found_right (
                  ground (
                    arith, k3.rhs_val, k3.rhs_set, k2.rhs_val, k2.rhs_set, k1.rhs_val, k1.rhs_set,
                    k1.subquery, n,
                  ))));
        })

    check_cond-IsTyped :
        (c d : Condition F)
        → c.is_rhs_subquery ≡ false
        → (c.is_rhs_val && c.is_rhs_set) ≡ false
        → check_cond fl db cols c ≡ ok d
        → IsTyped cols d
    unfolding check_cond
    check_cond-IsTyped c d n one h =
        let (c1, e1, h1) = >>=-eq-ok (resolve_left fl cols c) _ h in
        let (c2, e2, h2) = >>=-eq-ok (resolve_right fl cols c1) _ h1 in
        let (lhs, e3, h3) = >>=-eq-ok (left_side fl db c2) _ h2 in
        let ((c3, t), e4, h4) = >>=-eq-ok (check_right fl db lhs c2) _ h3 in
        stages-IsTyped c c1 c2 c3 d lhs t n one e1 e2 e3 e4 h4

  -- In a catalog whose columns carry their table's name, conditions with one right side and without
  -- subquery that pass `check_clause` can be evaluated on every record of the tables' columns: no
  -- column is missing, no null pointer is read, and the answer is a Boolean.
  pub check_clause-evaluates :
      (db : DbMeta) (tabs : List Text) (cols : List ColMeta) (conds checked : List (Condition F))
      (rec : List ℕ)
      → IsCatalog db
      → get_all_cols db tabs ≡ ok cols
      → All
          (λ (c : Condition F).
            (c.is_rhs_subquery ≡ false) × ((c.is_rhs_val && c.is_rhs_set) ≡ false))
          conds
      → check_clause fl db tabs conds ≡ ok checked
      → (b : Bool) × (eval_conds fl cols rec checked ≡ ok b)
  unfolding check_clause
  check_clause-evaluates db tabs cols conds checked rec owned all sides h =
      eval_conds-ok fl cols rec checked (
        map_result-All_from (check_cond fl db cols) _ (IsTyped cols)
          (λ c d q e. check_cond-IsTyped db tabs cols owned all c d q.0 q.1 e) conds checked sides
          (rw all at h))
