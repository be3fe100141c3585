-- ===== src/Planner/Spread.antt =====
-- optimizer/planner.cpp: how conditions and scans are taken out of their lists and put in plans.
use db2024_main.Common.{
  ℕ, Bool, List, Text, [], if◌then◌else◌, not, ok, Result, str_eq, true, ◌&&◌, ◌++◌, ◌+◌, ◌∷◌, ◌||◌,
  ◌==◌,
}
use db2024_main.Common.Results.{◌>>=◌}
use db2024_main.Query.{Condition, swap_sides}
use db2024_main.Planner.Plans.{JoinTag, Plan, Popped, Pushed, Slots, join, null, scan}

module _ {F : Type 0} where
  -- The test of `pop_conds`.
  unfoldable pub takes : Text → Condition F → Bool
  takes tab_name c =
      (c.is_lhs_val && (c.is_rhs_val || c.is_rhs_set || c.is_rhs_null))
      || (str_eq tab_name c.lhs_col.tab_name && (c.is_rhs_val || c.is_rhs_set || c.is_rhs_null))
      || (not c.is_rhs_val && not c.is_rhs_set && str_eq c.lhs_col.tab_name c.rhs_col.tab_name)

  -- The conditions that are taken, and those that are left.
  unfoldable pub pop_conds : Text → List (Condition F) → List (Condition F) × List (Condition F)
  unfolding takes
  pop_conds tab_name [] = ([], [])
  pop_conds tab_name (c ∷ conds) =
      let (taken, left) = pop_conds tab_name conds in
      if takes tab_name c then (c ∷ taken, left) else (taken, c ∷ left)

  -- The join in which both sides found a column: the sides are exchanged if the left one has found
  -- the column of the right side.
  unfoldable pub push_here :
      ℕ → JoinTag → Plan F → Plan F → List (Condition F) → Condition F → Result (Pushed F)
  unfolding swap_sides
  push_here left_res tag left right conds c = do
    moved ← if left_res == 2 then swap_sides c else ok c
    ok (record { code = 3; plan = join tag left right (conds ++ moved ∷ []) })

  -- What follows the call on the right child, and the call on the left child.
  unfoldable pub push_join :
      JoinTag
      → Plan F
      → Plan F
      → List (Condition F)
      → Condition F
      → Pushed F
      → Pushed F
      → Result (Pushed F)
  unfolding push_here
  push_join tag left right conds c l r =
      if r.code == 3
      then ok (record { code = 3; plan = join tag left r.plan conds })
      else if (l.code == 0) || (r.code == 0)
      then ok (record { code = l.code + r.code; plan = join tag left right conds })
      else push_here l.code tag left right conds c

  unfoldable pub push_right :
      JoinTag
      → Plan F
      → Plan F
      → List (Condition F)
      → Condition F
      → Pushed F
      → Result (Pushed F)
      → Result (Pushed F)
  unfolding push_join
  push_right tag left right conds c l on_right =
      if l.code == 3
      then ok (record { code = 3; plan = join tag l.plan right conds })
      else on_right >>= push_join tag left right conds c l

  unfoldable pub push_conds : Condition F → Plan F → Result (Pushed F)
  unfolding push_right
  push_conds c null = ok (record { code = 0; plan = null })
  push_conds c (scan x) = ok (record {
    code =
        if str_eq x.tab_name c.lhs_col.tab_name
        then 1
        else if str_eq x.tab_name c.rhs_col.tab_name
        then 2
        else 0;
    plan = scan x;
  })
  push_conds c (join tag left right conds) = do
    l ← push_conds c left
    let on_right = push_conds c right
    push_right tag left right conds c l on_right

  unfoldable pub pop_scan : Text → List Text → Slots F → Popped F
  pop_scan table joined [] = record { plan = null; joined = joined; slots = [] }
  pop_scan table joined ((x, mark) ∷ slots) =
      let rest = pop_scan table joined slots in
      if str_eq x.tab_name table
      then record { plan = scan x; joined = joined ++ x.tab_name ∷ []; slots = (x, true) ∷ slots }
      else record { plan = rest.plan; joined = rest.joined; slots = (x, mark) ∷ rest.slots }
