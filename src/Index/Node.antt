-- ===== src/Index/Node.antt =====
-- index/ix_index_handle.h and .cpp, `IxNodeHandle`: the keys and the record ids of one node of the
-- B+ tree. The page keeps both as arrays, of which the first `num_key` entries are in use.
-- `max_size` is `get_max_size()`.
pub mod Search
pub mod Sorted
pub mod Insert
pub mod Remove
mod Tests
use db2024_main.Common.{
  ℕ, Bool, Option, if◌then◌else◌, leb, ltb, none, some, suc, zero, ◌&&◌, ◌+◌, ◌-◌, ◌/◌, ◌==◌, ◌||◌,
}
use db2024_main.Index.Order.{KeyOrder}

pub record IxNode (K V : Type 0) : Type 0 where
  pub num_key : ℕ
  pub max_size : ℕ
  pub keys : ℕ → K
  pub rids : ℕ → V

-- The loop of `lower_bound` and `upper_bound`: `test` says that the search goes on to the right.
unfoldable pub bound_loop : (ℕ → Bool) → ℕ → ℕ → ℕ → ℕ
bound_loop test zero left right = left
bound_loop test (suc fuel) left right =
    let mid = (left + right) / 2 in
    let upper = bound_loop test fuel (mid + 1) right in
    let lower = bound_loop test fuel left mid in
    if ltb left right then (if test mid then upper else lower) else left

-- `memmove` of `count` entries from `from` to `to` in an array.
abbrev pub move {ℓ} : {X : Type ℓ} → ℕ → ℕ → ℕ → (ℕ → X) → ℕ → X
move to from count xs i = if leb to i && ltb i (to + count) then xs (from + (i - to)) else xs i

-- `memcpy` of one entry.
abbrev pub write_at {ℓ} : {X : Type ℓ} → ℕ → X → (ℕ → X) → ℕ → X
write_at place x xs i = if i == place then x else xs i

module _ {K V : Type 0} (o : KeyOrder K) where
  unfoldable pub lower_bound : K → IxNode K V → ℕ
  unfolding bound_loop
  lower_bound target n = bound_loop (λ i. o.less (n.keys i) target) n.num_key 0 n.num_key

  unfoldable pub upper_bound : K → IxNode K V → ℕ
  unfolding bound_loop
  upper_bound target n =
      bound_loop (λ i. o.less (n.keys i) target || o.same (n.keys i) target) n.num_key 0 n.num_key

  -- The test of `leaf_lookup`, `insert` and `remove` at the lower bound.
  abbrev pub found_at : ℕ → K → IxNode K V → Bool
  found_at place key n = ltb place n.num_key && o.same (n.keys place) key

  unfoldable pub leaf_lookup : K → IxNode K V → Option V
  unfolding lower_bound
  leaf_lookup key n =
      let place = lower_bound key n in if found_at place key n then some (n.rids place) else none

  -- `upper_bound(key) - 1`, and 0 where that is negative.
  unfoldable pub internal_lookup : K → IxNode K V → V
  unfolding upper_bound
  internal_lookup key n = n.rids (upper_bound key n - 1)

  -- `insert_pairs` with one pair, `none` where an assertion fails.
  unfoldable pub insert_pair : ℕ → K → V → IxNode K V → Option (IxNode K V)
  insert_pair place key rid n =
      if leb place n.num_key && leb (n.num_key + 1) n.max_size
      then some (record n {
        num_key = n.num_key + 1;
        keys = write_at place key (move (place + 1) place (n.num_key - place) n.keys);
        rids = write_at place rid (move (place + 1) place (n.num_key - place) n.rids);
      })
      else none

  unfoldable pub insert : K → V → IxNode K V → Option (IxNode K V)
  unfolding lower_bound insert_pair
  insert key value n =
      let place = lower_bound key n in
      if found_at place key n then some n else insert_pair place key value n

  unfoldable pub erase_pair : ℕ → IxNode K V → Option (IxNode K V)
  erase_pair place n =
      if ltb place n.num_key
      then some (record n {
        num_key = n.num_key - 1;
        keys = move place (place + 1) (n.num_key - place - 1) n.keys;
        rids = move place (place + 1) (n.num_key - place - 1) n.rids;
      })
      else none

  unfoldable pub remove : K → IxNode K V → Option (IxNode K V)
  unfolding lower_bound erase_pair
  remove key n =
      let place = lower_bound key n in if found_at place key n then erase_pair place n else some n
