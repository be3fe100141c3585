-- ===== src/Execution/Join.antt =====
-- execution/executor_nestedloop_join.h, `NestedLoopJoinExecutor`, over the executors of its two
-- sides. A joined tuple is the pair of its two parts; `accepts` is `eval_conds` of the join's
-- conditions on it, which can throw as the executors below can. `rounds` bounds the rounds of the
-- loops over the tuples of the right and the left side.
pub mod Tuples
pub mod Advance
pub mod Run
mod Tests
use db2024_main.Common.{
  ℕ, Bool, List, Option, [], false, get_or, if◌then◌else◌, length, minus_one, negsuc, none, pos,
  some, suc, true, zero, ℤ, ◌++◌, ◌+◌, ◌∷◌, ◌-◌, ◌==◌, Result, null_pointer, ok, raise,
}
use db2024_main.Common.Results.{◌>>=◌}
use db2024_main.Execution.Executor.{Executor}

-- `right_pos - 1`, from a position.
abbrev pub before : ℕ → ℤ
before zero = minus_one
before (suc n) = pos n

-- How many positions are left down to 0, the current one included.
abbrev pub count_down : ℤ → ℕ
count_down (pos n) = n + 1
count_down (negsuc n) = 0

pub record Join (S T A B : Type 0) : Type 0 where
  pub left : S
  pub right : T
  pub isend : Bool
  pub left_rec : Option A
  pub right_rec : Option B
  pub right_records : List (Option B)
  pub right_pos : ℤ

module _ {A B : Type 0} (rounds : ℕ) (L : Executor A) (R : Executor B)
    (accepts : A → B → Result Bool) where
  abbrev pub JoinOf : Type 0
  JoinOf = Join L.State R.State A B

  -- The loop of `beginTuple` over the right side, with the rounds that are left.
  unfoldable pub read_right : ℕ → R.State → List (Option B) → Result (R.State × List (Option B))
  read_right zero right records = ok (right, records)
  read_right (suc n) right records =
      let round = (do
        current ← R.next right
        next ← R.next_tuple current.1
        read_right n next (records ++ current.0 ∷ [])) in
      if R.is_end right then ok (right, records) else round

  -- One round of the inner loop of `advance_to_match`; `true` is the return from it.
  unfoldable pub try_pair : Option A → Option B → ℕ → JoinOf → Result (JoinOf × Bool)
  try_pair none b k j = raise null_pointer
  try_pair (some a) none k j = raise null_pointer
  try_pair (some a) (some b) k j = do
    good ← accepts a b
    if good
        then ok (record j { right_rec = some b; right_pos = pos k }, true)
        else ok (record j { right_rec = some b; right_pos = before k }, false)

  -- The inner loop ends where a round returns.
  unfoldable pub unless_done :
      (JoinOf → Result (JoinOf × Bool)) → JoinOf × Bool → Result (JoinOf × Bool)
  unless_done rest (j, true) = ok (j, true)
  unless_done rest (j, false) = rest j

  -- The inner loop, with one round for each position left.
  unfoldable pub inner_loop : ℕ → JoinOf → Result (JoinOf × Bool)
  unfolding try_pair unless_done
  inner_loop zero j = ok (j, false)
  inner_loop (suc k) j =
      try_pair j.left_rec (get_or j.right_records k none) k j >>= unless_done (inner_loop k)

  -- `Next` of the left side, and the inner loop from the end of the right tuples.
  unfoldable pub at_left : (JoinOf → Result JoinOf) → JoinOf → L.State → Result JoinOf
  at_left rest j l = if L.is_end l then ok (record j { left = l; isend = true }) else do
    current ← L.next l
    rest (record j {
      left = current.1;
      left_rec = current.0;
      right_pos = before (length j.right_records);
    })

  -- The left side moves on.
  unfoldable pub next_left : (JoinOf → Result JoinOf) → JoinOf → Result JoinOf
  unfolding at_left
  next_left rest j = L.next_tuple j.left >>= at_left rest j

  unfoldable pub after_inner : (JoinOf → Result JoinOf) → JoinOf × Bool → Result JoinOf
  unfolding next_left
  after_inner rest (j, true) = ok j
  after_inner rest (j, false) = next_left rest j

  -- The outer loop of `advance_to_match`, with the rounds that are left.
  unfoldable pub advance : ℕ → JoinOf → Result JoinOf
  unfolding inner_loop after_inner
  advance zero j = ok j
  advance (suc n) j = inner_loop (count_down j.right_pos) j >>= after_inner (advance n)

  unfoldable pub advance_to_match : JoinOf → Result JoinOf
  unfolding advance
  advance_to_match j = advance rounds j

  -- `beginTuple` behind the loop over the right side.
  unfoldable pub begin_left : JoinOf → Result JoinOf
  unfolding advance_to_match at_left
  begin_left j =
      let going = L.begin_tuple j.left >>= at_left advance_to_match j in
      if length j.right_records == 0 then ok (record j { isend = true }) else going

  unfoldable pub begin_tuple : JoinOf → Result JoinOf
  unfolding read_right begin_left
  begin_tuple j = do
    first ← R.begin_tuple j.right
    read ← read_right rounds first []
    begin_left (record j { isend = false; right = read.0; right_records = read.1 })

  unfoldable pub next_tuple : JoinOf → Result JoinOf
  unfolding advance_to_match
  next_tuple j =
      if j.isend
      then ok j
      else advance_to_match (record j { right_pos = before (count_down j.right_pos - 1) })

  -- The two parts of the tuple; `none` is the null pointer.
  unfoldable pub pair_of : Option A → Option B → Option (A × B)
  pair_of none b = none
  pair_of (some a) none = none
  pair_of (some a) (some b) = some (a, b)

  unfoldable pub next : JoinOf → Option (A × B)
  unfolding pair_of
  next j = if j.isend then none else pair_of j.left_rec j.right_rec

  unfoldable pub is_end : JoinOf → Bool
  is_end j = j.isend

  -- The join as an executor that another can stand on.
  abbrev pub join_executor : Executor (A × B)
  join_executor = record {
    State = JoinOf;
    begin_tuple = begin_tuple;
    next_tuple = next_tuple;
    is_end = is_end;
    next = λ j. ok (next j, j);
  }
