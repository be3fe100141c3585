-- ===== src/Planner.antt =====
-- optimizer/planner.cpp and plan.h: the plan of the tables and conditions of a query, and the choice
-- of an index for a table.
pub mod Plans
pub mod Choice
pub mod Spread
pub mod Weight
pub mod Push
pub mod Scans
pub mod Joins
pub mod Tables
pub mod Relation
pub mod Foreign
pub mod Index
pub mod Tests
unfoldable pub use Plans.*
unfoldable pub use Choice.*
unfoldable pub use Spread.*
use db2024_main.Common.{
  raise, null_pointer, Bool, List, Text, [], false, if◌then◌else◌, not, ok, Result, replicate,
  length, suc, true, ◌&&◌, ◌∷◌, ◌||◌, null_pointer, raise,
}
use db2024_main.Common.Results.{◌>>=◌}
use db2024_main.Catalog.{DbMeta, get_table}
use db2024_main.Query.{Condition, swap_sides}

module _ {F : Type 0} where
  -- The constructor of ScanPlan.
  unfoldable pub make_scan :
      DbMeta → ScanTag → Text → List (Condition F) → List Text → Result (ScanPlan F)
  unfolding tuple_len
  make_scan db tag tab_name conds index_col_names = do
    tab ← get_table tab_name db
    ok (record {
      tag = tag;
      tab_name = tab_name;
      cols = tab.cols;
      conds = conds;
      len = tuple_len tab.cols;
      fed_conds = conds;
      index_col_names = index_col_names;
    })

  unfoldable pub scan_table : DbMeta → Text → List (Condition F) → Result (ScanPlan F)
  unfolding get_index_cols make_scan
  scan_table db tab_name conds = do
    index ← get_index_cols db tab_name conds
    if index.0
        then make_scan db index_scan tab_name conds index.1
        else make_scan db seq_scan tab_name conds []

  -- The scans of the tables, none of them joined, and the conditions that are left.
  unfoldable pub make_scans :
      DbMeta → List Text → List (Condition F) → Result (Slots F × List (Condition F))
  unfolding pop_conds scan_table
  make_scans db [] conds = ok ([], conds)
  make_scans db (t ∷ tables) conds =
      let (curr_conds, left) = pop_conds t conds in
      do
        x ← scan_table db t curr_conds
        rest ← make_scans db tables left
        ok ((x, false) ∷ rest.0, rest.1)

  unfoldable pub first_join : Settings → Condition F → List Text → Slots F → Result (Tree F)
  unfolding pop_scan first_tag
  first_join s c joined slots =
      let left = pop_scan c.lhs_col.tab_name joined slots in
      let right = pop_scan c.rhs_col.tab_name left.joined left.slots in
      do
        tag ← first_tag s
        ok (record {
          plan = join tag left.plan right.plan (c ∷ []);
          joined = right.joined;
          slots = right.slots;
        })

  unfoldable pub is_null : Plan F → Bool
  is_null null = true
  is_null (scan x) = false
  is_null (join tag l r conds) = false

  -- `pop_scan` unless the table is joined already.
  unfoldable pub pop_new : Text → List Text → Slots F → Popped F
  unfolding pop_scan has_name
  pop_new table joined slots =
      if has_name table joined
      then record { plan = null; joined = joined; slots = slots }
      else pop_scan table joined slots

  -- One of the two plans is null.
  unfoldable pub join_one : Bool → Condition F → Plan F → Plan F → Plan F → Result (Plan F)
  unfolding swap_sides
  join_one true c left right plan = do
    moved ← swap_sides c
    ok (join nest_loop right plan (moved ∷ []))
  join_one false c left right plan = ok (join nest_loop left plan (c ∷ []))

  -- The end of a round of the loop for the second and later conditions; `reverse` is
  -- `isneedreverse`.
  unfoldable pub join_next : Bool → Condition F → Plan F → Plan F → Plan F → Result (Plan F)
  unfolding is_null push_conds join_one
  join_next reverse c left right plan =
      if not (is_null left) && not (is_null right)
      then ok (join nest_loop (join nest_loop left right (c ∷ [])) plan [])
      else if not (is_null left) || not (is_null right)
      then join_one reverse c left right plan
      else do pushed ← push_conds c plan; ok pushed.plan

  unfoldable pub next_join : Condition F → Tree F → Result (Tree F)
  unfolding pop_new join_next has_name
  next_join c t =
      let left = pop_new c.lhs_col.tab_name t.joined t.slots in
      let right = pop_new c.rhs_col.tab_name left.joined left.slots in
      do
        plan ←
            join_next (not (has_name c.rhs_col.tab_name left.joined)) c left.plan right.plan t.plan
        ok (record { plan = plan; joined = right.joined; slots = right.slots })

  unfoldable pub join_all : List (Condition F) → Tree F → Result (Tree F)
  unfolding next_join
  join_all [] t = ok t
  join_all (c ∷ conds) t = do next ← next_join c t; join_all conds next

  -- The tables that no condition joins.
  unfoldable pub join_rest : Slots F → Plan F → Plan F
  join_rest [] plan = plan
  join_rest ((x, mark) ∷ slots) plan =
      join_rest slots (if mark then plan else join nest_loop plan (scan x) [])

  -- The tree of the join conditions. Without a table the code reads the first element of an empty
  -- vector.
  unfoldable pub join_tree : Settings → List (Condition F) → Slots F → Result (Tree F)
  unfolding first_join join_all
  join_tree s conds [] = raise null_pointer
  join_tree s [] ((x, mark) ∷ slots) =
      ok (record { plan = scan x; joined = []; slots = (x, true) ∷ slots })
  join_tree s (c ∷ conds) ((x, mark) ∷ slots) = do
    t ← first_join s c (replicate (suc (length slots)) []) ((x, mark) ∷ slots)
    join_all conds t

  -- One table is not joined.
  unfoldable pub join_tables : Settings → List (Condition F) → Slots F → Result (Plan F)
  unfolding join_tree join_rest
  join_tables s conds ((x, mark) ∷ []) = ok (scan x)
  join_tables s conds slots = do t ← join_tree s conds slots; ok (join_rest t.slots t.plan)

  unfoldable pub make_one_rel : DbMeta → Settings → List Text → List (Condition F) → Result (Plan F)
  unfolding make_scans join_tables
  make_one_rel db s tables conds = do
    scans ← make_scans db tables conds
    join_tables s scans.1 scans.0
