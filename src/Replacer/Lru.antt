-- ===== src/Replacer/Lru.antt =====
-- replacer/lru_replacer.h and lru_replacer.cpp. The `std::list` is the list of its nodes, each with
-- the address that an iterator to it holds; the hash maps a frame to the iterator of its node.
pub mod Queue
pub mod Order
mod Tests
use db2024_main.Common.{
  nat_eq, ℕ, ◌+◌, Option, none, some, List, [], ◌∷◌, ◌++◌, leb, ◌||◌, if◌then◌else◌, length, lookup,
  insert, erase, is_some, ◌==◌,
}

abbrev pub Node : Type 0
Node = ℕ × ℕ

-- `next_node` is the address of the next node that `push_back` allocates.
pub record LruReplacer : Type 0 where
  pub lru_list : List Node
  pub lru_hash : List (ℕ × ℕ)
  pub max_size : ℕ
  pub next_node : ℕ

unfoldable pub new : ℕ → LruReplacer
new num_pages = record { lru_list = []; lru_hash = []; max_size = num_pages; next_node = 0 }

-- `LRUlist_.erase(it)`: the node at the address goes, the others keep theirs.
unfoldable pub erase_node : ℕ → List Node → List Node
erase_node it [] = []
erase_node it ((a, frame_id) ∷ l) = if a == it then l else (a, frame_id) ∷ erase_node it l

unfoldable pub pop_victim : List Node → LruReplacer → LruReplacer × Option ℕ
pop_victim [] s = (s, none)
pop_victim ((a, frame_id) ∷ l) s =
    (record s { lru_list = l; lru_hash = erase frame_id s.lru_hash }, some frame_id)

-- `none` stands for the result `false`, with no frame written.
unfoldable pub victim : LruReplacer → LruReplacer × Option ℕ
unfolding pop_victim
victim s = pop_victim s.lru_list s

-- The part of `pin` behind `LRUhash_.find`.
unfoldable pub pin_found : ℕ → Option ℕ → LruReplacer → LruReplacer
pin_found frame_id none s = s
pin_found frame_id (some it) s = record s {
  lru_list = erase_node it s.lru_list;
  lru_hash = erase frame_id s.lru_hash;
}

unfoldable pub pin : ℕ → LruReplacer → LruReplacer
unfolding erase_node pin_found
pin frame_id s = pin_found frame_id (lookup frame_id s.lru_hash) s

unfoldable pub unpin : ℕ → LruReplacer → LruReplacer
unpin frame_id s =
    if is_some (lookup frame_id s.lru_hash) || leb s.max_size (length s.lru_list)
    then s
    else record s {
      lru_list = s.lru_list ++ (s.next_node, frame_id) ∷ [];
      lru_hash = insert frame_id s.next_node s.lru_hash;
      next_node = s.next_node + 1;
    }

unfoldable pub size : LruReplacer → ℕ
size s = length s.lru_list
