-- ===== src/Planner/Weight.antt =====
-- The weight of a plan for weights of the tables and the conditions: with the weight that is 1 at
-- one table or one condition and 0 elsewhere, it counts the occurrences.
use db2024_main.Common.{
  ℕ, Bool, List, Text, [], arith, false, if◌then◌else◌, str_eq, ◌+◌, ◌++◌, ◌∷◌, ◌||◌, ◌≡◌,
}
use db2024_main.Query.{Condition}
use db2024_main.Planner.{Plan, ScanPlan, Slots, join, null, scan}

-- A scan of the table stands in the plan.
unfoldable pub scans_table : {F : Type 0} → Text → Plan F → Bool
scans_table t null = false
scans_table t (scan x) = str_eq x.tab_name t
scans_table t (join tag l r conds) = scans_table t l || scans_table t r

module _ {F : Type 0} (w : Text → ℕ) (v : Condition F → ℕ) where
  unfoldable pub conds_weight : List (Condition F) → ℕ
  conds_weight [] = 0
  conds_weight (c ∷ conds) = v c + conds_weight conds

  unfoldable pub scan_weight : ScanPlan F → ℕ
  unfolding conds_weight
  scan_weight x = w x.tab_name + conds_weight x.conds

  unfoldable pub weight : Plan F → ℕ
  unfolding conds_weight scan_weight
  weight null = 0
  weight (scan x) = scan_weight x
  weight (join tag l r conds) = weight l + weight r + conds_weight conds

  -- The scans that are not joined yet.
  unfoldable pub unjoined : Slots F → ℕ
  unfolding scan_weight
  unjoined [] = 0
  unjoined ((x, mark) ∷ slots) = (if mark then 0 else scan_weight x) + unjoined slots

  pub conds_weight-append :
      (a b : List (Condition F)) → conds_weight (a ++ b) ≡ conds_weight a + conds_weight b
  unfolding conds_weight
  conds_weight-append [] b = omega arith
  conds_weight-append (c ∷ a) b = omega (arith, conds_weight-append a b)

unfoldable pub tables_weight : (Text → ℕ) → List Text → ℕ
tables_weight w [] = 0
tables_weight w (t ∷ tables) = w t + tables_weight w tables
