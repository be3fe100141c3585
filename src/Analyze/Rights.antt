-- ===== src/Analyze/Rights.antt =====
-- The right side of a condition in `check_cond`, and the checks at its end.
use db2024_main.Common.{
  ℕ, All, Bool-cases, List, arith, false, inl, inr, not, ok, refl, some, true, ◌&&◌, ◌≡◌, ◌||◌,
  incompatible_type, rmdb_error,
}
use db2024_main.Common.Results.{>>=-eq-ok, map_result}
use db2024_main.Catalog.{ColType, DbMeta, type_eq, type_float, type_int, type_string}
use db2024_main.Query.{Condition, Floats, Value, set_float}
use db2024_main.Analyze.{
  Side, check_end, check_member, check_right, check_value, column_side, is_comparable_type, widen,
}
use db2024_main.Analyze.Stages.{Keeps, guard-ok, init_raw-ok, map_result-All}

comparable_float :
    (a : ColType) → type_eq a type_float ≡ true → is_comparable_type a type_float ≡ true
unfolding type_eq is_comparable_type
comparable_float type_int h = cc
comparable_float type_float h = refl
comparable_float type_string h = cc

module _ {F D : Type 0} (fl : Floats F D) where
  widen-comparable :
      (t : ColType) (v : Value F)
      → is_comparable_type t v.type ≡ true
      → is_comparable_type t (widen fl t v).type ≡ true
  unfolding widen set_float
  widen-comparable t v h = elim (Bool-cases (type_eq t type_float && type_eq v.type type_int)) [
    | inl e ↦ rw e (comparable_float t (ground arith))
    | inr e ↦ rw e h
  ]

  -- The bytes of a value are written for a column.
  check_value-raw :
      (lhs : Side) (v u : Value F)
      → check_value fl false lhs v ≡ ok u
      → (raw : List ℕ) × (u.raw ≡ some raw)
  unfolding check_value
  check_value-raw lhs v u h =
      let (raw, e, same) =
        init_raw-ok fl lhs.len (widen fl lhs.type v) u
          (guard-ok (type_eq (widen fl lhs.type v).type lhs.type) incompatible_type _ h).1 in
      (raw, e)

  check_member-comparable :
      (lhs : Side) (v u : Value F)
      → check_member fl false lhs v ≡ ok u
      → is_comparable_type lhs.type u.type ≡ true
  unfolding check_member
  check_member-comparable lhs v u h =
      let (passed, rest) = guard-ok (is_comparable_type lhs.type v.type) incompatible_type _ h in
      let wide = widen-comparable lhs.type v passed in
      elim (Bool-cases (
        type_eq (widen fl lhs.type v).type lhs.type
        && not (type_eq (widen fl lhs.type v).type type_string))) [
          | inl e ↦
              let (raw, made, same) =
                init_raw-ok fl lhs.len (widen fl lhs.type v) u (rw e at rest) in
              rw same wide
          | inr e ↦ let same : u ≡ widen fl lhs.type v = cc (rw e at rest) in rw same wide
        ]

  pub record IsRight (lhs : Side) (c d : Condition F) : Type 0 where
    pub keeps : Keeps c d
    pub same_left : d.lhs_col ≡ c.lhs_col
    pub same_right : d.rhs_col ≡ c.rhs_col
    pub value :
        c.is_lhs_val ≡ false → c.is_rhs_val ≡ true → (raw : List ℕ) × (d.rhs_val.raw ≡ some raw)
    pub members :
        c.is_lhs_val ≡ false
        → c.is_rhs_val ≡ false
        → c.is_rhs_set ≡ true
        → All (λ (v : Value F). is_comparable_type lhs.type v.type ≡ true) d.rhs_vals

  pub check_right-IsRight :
      (db : DbMeta) (lhs : Side) (c d : Condition F) (t : ColType)
      → check_right fl db lhs c ≡ ok (d, t)
      → IsRight lhs c d
  unfolding check_right
  check_right-IsRight db lhs c d t h = elim (Bool-cases c.is_rhs_val) [
    | inl e ↦
        let (v, ev, made) = >>=-eq-ok (check_value fl c.is_lhs_val lhs c.rhs_val) _ (rw e at h) in
        let same : d ≡ record c { rhs_val = v } = cc (made) in
        rw same (record {
          keeps = record { lhs_val = refl; rhs_val = refl; rhs_set = refl; subquery = refl };
          same_left = refl;
          same_right = refl;
          value = λ n k. check_value-raw lhs c.rhs_val v (rw n at ev);
          members = λ n k. absurd (ground (arith, k, e));
        })
    | inr e ↦ elim (Bool-cases c.is_rhs_set) [
      | inl f ↦
          let (vals, ev, made) =
            >>=-eq-ok (map_result (check_member fl c.is_lhs_val lhs) c.rhs_vals) _
              (rw (e, f) at h) in
          let same : d ≡ record c { rhs_vals = vals } = cc (made) in
          rw same (record {
            keeps = record { lhs_val = refl; rhs_val = refl; rhs_set = refl; subquery = refl };
            same_left = refl;
            same_right = refl;
            value = λ n k. absurd (ground (arith, k, e));
            members = λ n k m.
                map_result-All (check_member fl false lhs) _ (check_member-comparable lhs)
                  c.rhs_vals vals (rw n at ev);
          })
      | inr f ↦
          let same : d ≡ c = elim (Bool-cases (not c.is_rhs_subquery)) [
            | inl g ↦
                let (side, es, made) =
                  >>=-eq-ok (column_side fl db c.rhs_col) _ (rw (e, f, g) at h) in
                cc (made)
            | inr g ↦ cc (rw (e, f, g) at h)
          ] in
          rw same (record {
            keeps = record { lhs_val = refl; rhs_val = refl; rhs_set = refl; subquery = refl };
            same_left = refl;
            same_right = refl;
            value = λ n k. absurd (ground (arith, k, e));
            members = λ n k m. absurd (ground (arith, m, f));
          })
    ]
  ]

  pub check_end-ok :
      (lhs : Side) (c d : Condition F) (t : ColType)
      → c.is_rhs_subquery ≡ false
      → check_end fl lhs (c, t) ≡ ok d
      → (d ≡ c) × (c.is_lhs_val ≡ false)
  unfolding check_end
  check_end-ok lhs c d t n h =
      let (typed, rest) =
        guard-ok (c.is_rhs_subquery || type_eq lhs.type t) incompatible_type _ h in
      let (left, made) = guard-ok (not c.is_lhs_val || c.is_rhs_subquery) rmdb_error _ rest in
      (cc (made), ground arith)
