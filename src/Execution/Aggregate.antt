-- ===== src/Execution/Aggregate.antt =====
-- execution/executor_agg.h: the groups of an aggregation and the state of its aggregates.
-- `SelectItem` is in analyze/analyze.h and `AggType` in parser/ast.h. A record is its bytes.
pub mod Partition
mod Tests
use db2024_main.Common.{
  text_eq, ℕ, ℤ, Bool, List, Option, Result, Text, [], drop, false, if◌then◌else◌, insert, int_lt,
  length, lookup, none, not, ok, pos, raise, read_int, replicate, rmdb_error, sign, some,
  str_compare, take, true, until_nul, ◌+◌, ◌++◌, ◌∷◌, ◌||◌, map,
}
use db2024_main.Common.Results.{map_result, ◌>>=◌}
use db2024_main.Catalog.{ColMeta, type_float, type_int, type_string, ColType}
use db2024_main.Query.{CompOp, Floats, TabCol, Value}
use db2024_main.Query.Eval.{compare_result, get_col_at}

pub data AggType : Type 0 where
  agg_none agg_sum agg_count agg_avg agg_min agg_max agg_count_star : AggType

pub record AggSpec : Type 0 where
  pub agg_type : AggType
  pub has_col : Bool
  pub col_meta : ColMeta

pub record AggValueState (F D : Type 0) : Type 0 where
  pub count : ℕ
  pub sum : D
  pub min_set : Bool
  pub max_set : Bool
  pub min_i : ℤ
  pub max_i : ℤ
  pub min_f : F
  pub max_f : F
  pub min_s : Text
  pub max_s : Text

pub record GroupState (F D : Type 0) : Type 0 where
  pub group_vals : List (List ℕ)
  pub agg_states : List (AggValueState F D)

-- `groups` and `group_order`
pub record Groups (F D : Type 0) : Type 0 where
  pub groups : List (Text × GroupState F D)
  pub group_order : List Text

unfoldable pub read_col_as_record : List ℕ → ColMeta → List ℕ
read_col_as_record src col = take col.len (drop col.offset src)

-- The key of the columns that `get_col` finds.
unfoldable pub key_of : List ColMeta → List ℕ → Text
unfolding read_col_as_record
key_of [] rec = []
key_of (c ∷ cols) rec = read_col_as_record rec c ++ 0 ∷ key_of cols rec

unfoldable pub key_for_group : List ColMeta → List TabCol → List ℕ → Result Text
unfolding key_of
key_for_group cols group_by_cols rec = do
  metas ← map_result (get_col_at cols) group_by_cols
  ok (key_of metas rec)

abbrev pub all_key : Text
all_key = b'_' ∷ b'_' ∷ b'a' ∷ b'l' ∷ b'l' ∷ b'_' ∷ b'_' ∷ []

-- The key of a record, where no columns give one group.
unfoldable pub record_key : List ColMeta → List TabCol → List ℕ → Result Text
unfolding key_for_group
record_key cols [] rec = ok all_key
record_key cols (c ∷ group_by_cols) rec = key_for_group cols (c ∷ group_by_cols) rec

module _ {F D : Type 0} (fl : Floats F D) where
  unfoldable pub value_compare : Value F → Value F → CompOp → Result Bool
  value_compare a b op = by_types a.type b.type
    where
      by_types : ColType → ColType → Result Bool
      by_types type_int type_int =
          ok (compare_result (sign (int_lt b.int_val a.int_val) (int_lt a.int_val b.int_val)) op)
      by_types type_float type_float = ok (
          compare_result
            (sign (fl.float_lt b.float_val a.float_val) (fl.float_lt a.float_val b.float_val)) op)
      by_types type_string type_string = ok (compare_result (str_compare a.str_val b.str_val) op)
      by_types type_int type_float =
          let av = fl.float_of_int a.int_val in
          ok (compare_result (sign (fl.float_lt b.float_val av) (fl.float_lt av b.float_val)) op)
      by_types type_float type_int =
          let bv = fl.float_of_int b.int_val in
          ok (compare_result (sign (fl.float_lt bv a.float_val) (fl.float_lt a.float_val bv)) op)
      by_types _ _ = raise rmdb_error

  abbrev pub no_state : AggValueState F D
  no_state = record {
    count = 0;
    sum = fl.double_zero;
    min_set = false;
    max_set = false;
    min_i = pos 0;
    max_i = pos 0;
    min_f = fl.float_zero;
    max_f = fl.float_zero;
    min_s = [];
    max_s = [];
  }

  unfoldable pub counted : AggValueState F D → AggValueState F D
  counted s = record s { count = s.count + 1 }

  unfoldable pub is_summed : AggType → Bool
  is_summed agg_sum = true
  is_summed agg_avg = true
  is_summed _ = false

  unfoldable pub count_avg : AggType → AggValueState F D → AggValueState F D
  unfolding counted
  count_avg agg_avg s = counted s
  count_avg _ s = s

  -- The minimum and the maximum of each type; the first value sets both.
  unfoldable pub update_int : AggType → ℤ → AggValueState F D → AggValueState F D
  unfolding is_summed count_avg
  update_int t v s = count_avg t (record s {
    sum = if is_summed t then fl.double_add s.sum (fl.double_of_int v) else s.sum;
    min_i = if not s.min_set || int_lt v s.min_i then v else s.min_i;
    min_set = true;
    max_i = if not s.max_set || int_lt s.max_i v then v else s.max_i;
    max_set = true;
  })

  unfoldable pub update_float : AggType → F → AggValueState F D → AggValueState F D
  unfolding is_summed count_avg
  update_float t v s = count_avg t (record s {
    sum = if is_summed t then fl.double_add s.sum (fl.double_of_float v) else s.sum;
    min_f = if not s.min_set || fl.float_lt v s.min_f then v else s.min_f;
    min_set = true;
    max_f = if not s.max_set || fl.float_lt s.max_f v then v else s.max_f;
    max_set = true;
  })

  unfoldable pub update_text : Text → AggValueState F D → AggValueState F D
  update_text v s = record s {
    min_s = if not s.min_set || int_lt (str_compare v s.min_s) (pos 0) then v else s.min_s;
    min_set = true;
    max_s = if not s.max_set || int_lt (pos 0) (str_compare v s.max_s) then v else s.max_s;
    max_set = true;
  }

  unfoldable pub update_typed : AggSpec → List ℕ → AggValueState F D → AggValueState F D
  unfolding update_int update_float update_text
  update_typed spec ptr s = by_type spec.col_meta.type
    where
      by_type : ColType → AggValueState F D
      by_type type_int = update_int spec.agg_type (read_int ptr) s
      by_type type_float = update_float spec.agg_type (fl.float_at ptr) s
      by_type type_string = update_text (until_nul (take spec.col_meta.len ptr)) s

  unfoldable pub update_agg_state : AggValueState F D → AggSpec → List ℕ → AggValueState F D
  unfolding counted update_typed
  update_agg_state s spec rec = by_agg spec.agg_type
    where
      by_agg : AggType → AggValueState F D
      by_agg agg_count_star = counted s
      by_agg agg_count = counted s
      by_agg _ = update_typed spec (drop spec.col_meta.offset rec) s

  -- The loop over the aggregates of a group.
  unfoldable pub update_all :
      List AggSpec → List ℕ → List (AggValueState F D) → List (AggValueState F D)
  unfolding update_agg_state
  update_all [] rec states = states
  update_all (spec ∷ specs) rec [] = []
  update_all (spec ∷ specs) rec (s ∷ states) =
      update_agg_state s spec rec ∷ update_all specs rec states

  unfoldable pub update_group : List AggSpec → List ℕ → GroupState F D → GroupState F D
  unfolding update_all
  update_group specs rec g = record g { agg_states = update_all specs rec g.agg_states }

  unfoldable pub new_group :
      List ColMeta → List TabCol → List AggSpec → List ℕ → Result (GroupState F D)
  unfolding read_col_as_record
  new_group cols group_by_cols specs rec = do
    metas ← map_result (get_col_at cols) group_by_cols
    ok (record {
      group_vals = map (read_col_as_record rec) metas;
      agg_states = replicate (length specs) no_state;
    })

  -- The group of a key: the one that is there, or a new one at the end of the order.
  unfoldable pub place :
      List ColMeta
      → List TabCol
      → List AggSpec
      → List ℕ
      → Text
      → Groups F D
      → Option (GroupState F D)
      → Result (Groups F D)
  unfolding new_group update_group
  place cols group_by_cols specs rec key gs (some g) =
      ok (record gs { groups = insert key (update_group specs rec g) gs.groups })
  place cols group_by_cols specs rec key gs none = do
    g ← new_group cols group_by_cols specs rec
    ok (record {
      groups = insert key (update_group specs rec g) gs.groups;
      group_order = gs.group_order ++ key ∷ [];
    })

  -- One round of the loop of `beginTuple`.
  unfoldable pub add_record :
      List ColMeta → List TabCol → List AggSpec → List ℕ → Groups F D → Result (Groups F D)
  unfolding record_key place
  add_record cols group_by_cols specs rec gs = do
    key ← record_key cols group_by_cols rec
    place cols group_by_cols specs rec key gs (lookup key gs.groups)

  -- The loop of `beginTuple` over the tuples of the executor below; a null one is skipped.
  unfoldable pub add_records :
      List ColMeta
      → List TabCol
      → List AggSpec
      → List (Option (List ℕ))
      → Groups F D
      → Result (Groups F D)
  unfolding add_record
  add_records cols group_by_cols specs [] gs = ok gs
  add_records cols group_by_cols specs (none ∷ recs) gs =
      add_records cols group_by_cols specs recs gs
  add_records cols group_by_cols specs (some rec ∷ recs) gs = do
    next ← add_record cols group_by_cols specs rec gs
    add_records cols group_by_cols specs recs next
