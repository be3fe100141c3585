-- ===== src/Analyze/Stages.antt =====
-- What each step of `check_cond` leaves for the evaluation.
use db2024_main.Common.{
  ℕ, All, Bool, Bool-cases, List, Option, Result, [], false, inl, inr, none, not, ok, raise, refl,
  some, true, ◌&&◌, ◌∷◌, ◌≡◌, Error, ap, subst, All-any,
}
use db2024_main.Common.Results.{>>=-eq-ok, guard, map_result, ◌>>◌}
use db2024_main.Catalog.{ColMeta, DbMeta, TabMeta, get_col, get_table}
use db2024_main.Query.{Condition, Floats, Value, if_unset, init_raw, with_raw}
use db2024_main.Analyze.{Side, check_column, column_side, left_side, resolve_left, resolve_right}
use db2024_main.Analyze.Found.{IsFound, check_column-IsFound}

-- A guard that passed.
pub guard-ok :
    {B : Type 0} (t : Bool) (e : Error) (m : Result B) {b : B}
    → (guard t e >> m) ≡ ok b
    → (t ≡ true) × (m ≡ ok b)
guard-ok true e m h = (refl, h)
guard-ok false e m h = cc

pub map_result-All_from :
    {A B : Type 0} (f : A → Result B) (Q : A → Type 0) (P : B → Type 0)
    → ((x : A) (y : B) → Q x → f x ≡ ok y → P y)
    → (xs : List A) (ys : List B) → All Q xs
    → map_result f xs ≡ ok ys
    → All P ys
unfolding map_result
map_result-All_from f Q P each [] ys q h = subst (All P) (let same : [] ≡ ys = cc (h) in same) tt
map_result-All_from f Q P each (x ∷ xs) ys q h =
    let (y, ey, hy) = >>=-eq-ok (f x) _ h in
    let (rest, er, hr) = >>=-eq-ok (map_result f xs) _ hy in
    let same : y ∷ rest ≡ ys = cc (hr) in
    subst (All P) same (each x y q.0 ey, map_result-All_from f Q P each xs rest q.1 er)

pub map_result-All :
    {A B : Type 0} (f : A → Result B) (P : B → Type 0)
    → ((x : A) (y : B) → f x ≡ ok y → P y)
    → (xs : List A) (ys : List B) → map_result f xs ≡ ok ys
    → All P ys
map_result-All f P each xs ys h =
    map_result-All_from f (λ x. Unit) P (λ x y q. each x y) xs ys (All-any xs) h

-- The flags of a condition stay.
pub record Keeps {F : Type 0} (c d : Condition F) : Type 0 where
  pub lhs_val : d.is_lhs_val ≡ c.is_lhs_val
  pub rhs_val : d.is_rhs_val ≡ c.is_rhs_val
  pub rhs_set : d.is_rhs_set ≡ c.is_rhs_set
  pub subquery : d.is_rhs_subquery ≡ c.is_rhs_subquery

module _ {F D : Type 0} (fl : Floats F D) where
  pub resolve_left-Keeps :
      (cols : List ColMeta) (c d : Condition F)
      → resolve_left fl cols c ≡ ok d
      → Keeps c d × (c.is_lhs_val ≡ false → IsFound cols d.lhs_col)
  unfolding resolve_left
  resolve_left-Keeps cols c d h = elim (Bool-cases c.is_lhs_val) [
    | inl e ↦
        let same : d ≡ c = cc (rw e at h) in
        rw same
          (record { lhs_val = refl; rhs_val = refl; rhs_set = refl; subquery = refl }, λ n. cc)
    | inr e ↦
        let (col, found, made) = >>=-eq-ok (check_column cols c.lhs_col) _ (rw e at h) in
        let same : d ≡ record c { lhs_col = col } = cc (made) in
        rw same (
          record { lhs_val = refl; rhs_val = refl; rhs_set = refl; subquery = refl },
          λ n. check_column-IsFound cols c.lhs_col col found,
        )
  ]

  pub resolve_right-Keeps :
      (cols : List ColMeta) (c d : Condition F)
      → resolve_right fl cols c ≡ ok d
      → Keeps c d
        × (d.lhs_col ≡ c.lhs_col)
        × ((not c.is_rhs_val && not c.is_rhs_set && not c.is_rhs_subquery) ≡ true
            → IsFound cols d.rhs_col)
  unfolding resolve_right
  resolve_right-Keeps cols c d h =
      elim (Bool-cases (not c.is_rhs_val && not c.is_rhs_set && not c.is_rhs_subquery)) [
        | inl e ↦
            let (col, found, made) = >>=-eq-ok (check_column cols c.rhs_col) _ (rw e at h) in
            let same : d ≡ record c { rhs_col = col } = cc (made) in
            rw same (
              record { lhs_val = refl; rhs_val = refl; rhs_set = refl; subquery = refl },
              refl,
              λ n. check_column-IsFound cols c.rhs_col col found,
            )
        | inr e ↦
            let same : d ≡ c = cc (rw e at h) in
            rw same (
              record { lhs_val = refl; rhs_val = refl; rhs_set = refl; subquery = refl },
              refl,
              λ n. cc (n, e),
            )
      ]

  pub left_side-ok :
      (db : DbMeta) (c : Condition F) (lhs : Side)
      → c.is_lhs_val ≡ false
      → left_side fl db c ≡ ok lhs
      → (tab : TabMeta) × (meta : ColMeta) × (get_table c.lhs_col.tab_name db ≡ ok tab)
        × (get_col c.lhs_col.col_name tab.cols ≡ ok meta)
        × (lhs.type ≡ meta.type)
  unfolding left_side column_side
  left_side-ok db c lhs n h =
      let (tab, et, h1) = >>=-eq-ok (get_table c.lhs_col.tab_name db) _ (rw n at h) in
      let (meta, em, h2) = >>=-eq-ok (get_col c.lhs_col.col_name tab.cols) _ h1 in
      let same : lhs ≡ record { type = meta.type; len = meta.len } = cc (h2) in
      (tab, meta, et, em, ap (λ (s : Side). s.type) same)

  with_raw-ok :
      (v u : Value F) (r : Result (List ℕ))
      → with_raw fl v r ≡ ok u
      → (raw : List ℕ) × (u.raw ≡ some raw) × (u.type ≡ v.type)
  unfolding with_raw
  with_raw-ok v u (ok bytes) h =
      let same : u ≡ record v { raw = some bytes } = cc (h) in (bytes, rw same refl, rw same refl)
  with_raw-ok v u (raise e) h = cc (h)

  if_unset-ok :
      (o : Option (List ℕ)) (r : Result (Value F)) (u : Value F) → if_unset fl o r ≡ ok u → r ≡ ok u
  unfolding if_unset
  if_unset-ok none r u h = h
  if_unset-ok (some b) r u h = cc (h)

  pub init_raw-ok :
      (len : ℕ) (v u : Value F)
      → init_raw fl len v ≡ ok u
      → (raw : List ℕ) × (u.raw ≡ some raw) × (u.type ≡ v.type)
  unfolding init_raw
  init_raw-ok len v u h = with_raw-ok v u _ (if_unset-ok v.raw _ u h)
