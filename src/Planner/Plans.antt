-- ===== src/Planner/Plans.antt =====
-- optimizer/plan.h and planner.cpp: the plans of tables, and what the planner passes from step to
-- step. A list of scans with marks is `table_scan_executors` with `scantbl`.
use db2024_main.Common.{
  ℕ, Bool, List, Text, [], false, if◌then◌else◌, ok, Result, rmdb_error, raise, str_eq, ◌+◌, ◌∷◌,
  ◌||◌,
}
use db2024_main.Catalog.{ColMeta}
use db2024_main.Query.{Condition}

-- `std::find` in a list of names.
unfoldable pub has_name : Text → List Text → Bool
has_name t [] = false
has_name t (n ∷ names) = str_eq n t || has_name t names

pub data ScanTag : Type 0 where
  seq_scan index_scan : ScanTag

pub data JoinTag : Type 0 where
  nest_loop sort_merge : JoinTag

pub record ScanPlan (F : Type 0) : Type 0 where
  pub tag : ScanTag
  pub tab_name : Text
  pub cols : List ColMeta
  pub conds : List (Condition F)
  pub len : ℕ
  pub fed_conds : List (Condition F)
  pub index_col_names : List Text

-- The plans that a join tree is made of; `null` is the null pointer.
pub data Plan (F : Type 0) : Type 0 where
  null : Plan F
  scan : ScanPlan F → Plan F
  join : JoinTag → Plan F → Plan F → List (Condition F) → Plan F

-- The returned number, the condition as it is left and the plan with what was added to it. The
-- condition is moved into the plan when the number is 3.
pub record Pushed (F : Type 0) : Type 0 where
  pub code : ℕ
  pub plan : Plan F

-- `table_scan_executors` with `scantbl`: true stands for 1, and false for -1.
abbrev pub Slots : Type 0 → Type 0
Slots F = List (ScanPlan F × Bool)

pub record Popped (F : Type 0) : Type 0 where
  pub plan : Plan F
  pub joined : List Text
  pub slots : Slots F

-- `cols_.back().offset + cols_.back().len`; a table has a column at least.
unfoldable pub tuple_len : List ColMeta → ℕ
tuple_len [] = 0
tuple_len (c ∷ []) = c.offset + c.len
tuple_len (c ∷ d ∷ cols) = tuple_len (d ∷ cols)

-- The settings `enable_nestedloop_join` and `enable_sortmerge_join`.
pub record Settings : Type 0 where
  pub nestedloop_join : Bool
  pub sortmerge_join : Bool

unfoldable pub first_tag : Settings → Result JoinTag
first_tag s =
    if s.nestedloop_join
    then ok nest_loop
    else if s.sortmerge_join
    then ok sort_merge
    else raise rmdb_error

-- `table_join_executors`, `joined_tables` and the scans.
pub record Tree (F : Type 0) : Type 0 where
  pub plan : Plan F
  pub joined : List Text
  pub slots : Slots F
