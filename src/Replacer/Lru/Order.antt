-- ===== src/Replacer/Lru/Order.antt =====
-- lru_replacer.cpp: the operations, said of the frames in the order of eviction.
use db2024_main.Common.{
  subst, nat_eq, ℕ, ◌+◌, ◌<◌, ◌≤◌, ◌≡◌, refl, sym, arith, false, none, some, List, [], ◌∷◌, ◌++◌,
  leb, length, lookup, insert, erase, elem, remove, Distinct, Option-cases, Bool-cases, inl, inr,
  lookup-insert, lookup-erase, Distinct-append_new, Distinct-remove, elem-remove_self,
  length-append,
}
use db2024_main.Replacer.{Replacer, queue_unpin}
use db2024_main.Replacer.Lru.{
  Node, LruReplacer, new, erase_node, pop_victim, victim, pin_found, pin, unpin, size,
}
use db2024_main.Replacer.Lru.Queue.{
  frames, node_of, Below, Addressed, IsValid, is_some-node_of, node_of-none, remove_absent,
  frames-erase_node, node_of-erase_node_ne, Addressed-erase_node, Below-erase_node,
  length-erase_node, frames-append, length-frames, node_of-append, Addressed-append, Below-append,
}

-- A new replacer is valid, and has nothing to evict.
pub new-IsValid : (num_pages : ℕ) → IsValid (new num_pages) × (frames (new num_pages).lru_list ≡ [])
unfolding new lookup node_of frames
new-IsValid n = (
  record {
    agree = λ k. refl;
    frames_distinct = tt;
    nodes_distinct = tt;
    nodes_below = tt;
    bounded = omega arith;
  },
  refl,
)

agree-erase :
    (s : LruReplacer) (k it : ℕ) (v : IsValid s)
    → node_of k s.lru_list ≡ some it
    → (j : ℕ) → lookup j (erase k s.lru_hash) ≡ node_of j (erase_node it s.lru_list)
agree-erase s k it v hit j = ground (
  arith,
  lookup-erase k j s.lru_hash,
  v.agree j,
  node_of-erase_node_ne j k it s.lru_list,
  frames-erase_node k it s.lru_list,
  node_of-none j (erase_node it s.lru_list),
  elem-remove_self k (frames s.lru_list),
)

-- On a valid replacer a pin removes exactly the given frame, keeps the order of the others, and
-- keeps the replacer valid.
pub order-pin :
    (s : LruReplacer) (k : ℕ)
    → IsValid s
    → (frames (pin k s).lru_list ≡ remove k (frames s.lru_list))
      × IsValid (pin k s)
      × ((pin k s).max_size ≡ s.max_size)
unfolding pin
order-pin s k v = elim (Option-cases (node_of k s.lru_list)) [
  | inl miss ↦
      rw (v.agree k, miss, pin_found)
        (ground (arith, remove_absent k s.lru_list, is_some-node_of k s.lru_list), v, refl)
  | inr (it, hit) ↦
      rw (v.agree k, hit, pin_found)
        (
          frames-erase_node k it s.lru_list v.nodes_distinct hit,
          record {
            agree = agree-erase s k it v hit;
            frames_distinct =
                rw (frames-erase_node k it s.lru_list v.nodes_distinct hit)
                  (Distinct-remove k (frames s.lru_list) v.frames_distinct);
            nodes_distinct = Addressed-erase_node it s.lru_list v.nodes_distinct;
            nodes_below = Below-erase_node s.next_node it s.lru_list v.nodes_below;
            bounded = omega (arith, length-erase_node it s.lru_list, v.bounded);
          },
          refl,
        )
]

unpin_new-IsValid :
    (s : LruReplacer) (k : ℕ)
    → IsValid s
    → elem k (frames s.lru_list) ≡ false
    → length s.lru_list < s.max_size
    → IsValid (record s {
      lru_list = s.lru_list ++ (s.next_node, k) ∷ [];
      lru_hash = insert k s.next_node s.lru_hash;
      next_node = s.next_node + 1;
    })
unpin_new-IsValid s k v new room = record {
  agree = λ j. ground (
    arith,
    lookup-insert k j s.next_node s.lru_hash,
    node_of-append s.lru_list s.next_node k j,
    v.agree j,
  );
  frames_distinct =
      rw frames-append (Distinct-append_new k (frames s.lru_list) v.frames_distinct new);
  nodes_distinct = Addressed-append s.next_node k s.lru_list v.nodes_below v.nodes_distinct;
  nodes_below = Below-append s.next_node k s.lru_list v.nodes_below;
  bounded = omega (arith, length-append s.lru_list ((s.next_node, k) ∷ []));
}

-- An unpin of a valid replacer queues the frame last, unless it is queued already or the replacer
-- is full, and keeps the replacer valid.
pub order-unpin :
    (s : LruReplacer) (k : ℕ)
    → IsValid s
    → (frames (unpin k s).lru_list ≡ queue_unpin s.max_size k (frames s.lru_list))
      × IsValid (unpin k s)
      × ((unpin k s).max_size ≡ s.max_size)
unfolding unpin
order-unpin s k v = elim (Bool-cases (elem k (frames s.lru_list))) [
  | inl old ↦ rw (v.agree k, is_some-node_of, old) (refl, v, refl)
  | inr new ↦ elim (Bool-cases (leb s.max_size (length s.lru_list))) [
    | inl full ↦
        rw (v.agree k, is_some-node_of, new, full)
          (ground (arith, length-frames s.lru_list), v, refl)
    | inr room ↦
        rw (v.agree k, is_some-node_of, new, room)
          (
            ground (arith, length-frames s.lru_list, frames-append s.lru_list s.next_node k),
            unpin_new-IsValid s k v new (ground arith),
            refl,
          )
  ]
]

pop_victim-none : (l : List Node) (s : LruReplacer) → frames l ≡ [] → pop_victim l s ≡ (s, none)
unfolding pop_victim frames
pop_victim-none [] s h = refl
pop_victim-none (x ∷ l) s h = cc

-- On a valid replacer with no frame queued, `victim` fails and changes nothing.
pub victim-none : (s : LruReplacer) → IsValid s → frames s.lru_list ≡ [] → victim s ≡ (s, none)
unfolding victim
victim-none s v h = pop_victim-none s.lru_list s h

agree-tail :
    (hash : List (ℕ × ℕ)) (a f j : ℕ) (l : List Node)
    → lookup j hash ≡ node_of j ((a, f) ∷ l)
    → elem f (frames l) ≡ false
    → lookup j (erase f hash) ≡ node_of j l
unfolding node_of
agree-tail hash a f j l h new = ground (arith, lookup-erase f j hash, node_of-none j l)

pop_victim-some :
    (l : List Node) (s : LruReplacer) (k : ℕ) (rest : List ℕ)
    → IsValid s
    → l ≡ s.lru_list
    → frames l ≡ k ∷ rest
    → ((pop_victim l s).1 ≡ some k)
      × (frames (pop_victim l s).0.lru_list ≡ rest)
      × IsValid (pop_victim l s).0
      × ((pop_victim l s).0.max_size ≡ s.max_size)
unfolding pop_victim frames
pop_victim-some [] s k rest v e h = cc
pop_victim-some ((a, f) ∷ l) s k rest v e h =
    let agree : (j : ℕ) → lookup j s.lru_hash ≡ node_of j ((a, f) ∷ l) =
      subst (λ x. (j : ℕ) → lookup j s.lru_hash ≡ node_of j x) (sym e) v.agree in
    let frames_distinct : Distinct (frames ((a, f) ∷ l)) =
      subst (λ x. Distinct (frames x)) (sym e) v.frames_distinct in
    let nodes_distinct : Addressed ((a, f) ∷ l) = subst (Addressed) (sym e) v.nodes_distinct in
    let nodes_below : Below s.next_node ((a, f) ∷ l) =
      subst (Below s.next_node) (sym e) v.nodes_below in
    let bounded : length ((a, f) ∷ l) ≤ s.max_size =
      subst (λ x. length x ≤ s.max_size) (sym e) v.bounded in
    (
      ground arith,
      ground arith,
      record {
        agree = λ j. agree-tail s.lru_hash a f j l (agree j) frames_distinct.0;
        frames_distinct = frames_distinct.1;
        nodes_distinct = nodes_distinct.1;
        nodes_below = nodes_below.1;
        bounded = omega arith;
      },
      refl,
    )

-- On a valid replacer, `victim` evicts the frame that was queued first, forgets it, and keeps the
-- replacer valid.
pub victim-some :
    (s : LruReplacer) (k : ℕ) (rest : List ℕ)
    → IsValid s
    → frames s.lru_list ≡ k ∷ rest
    → ((victim s).1 ≡ some k)
      × (frames (victim s).0.lru_list ≡ rest)
      × IsValid (victim s).0
      × ((victim s).0.max_size ≡ s.max_size)
unfolding victim
victim-some s k rest v h = pop_victim-some s.lru_list s k rest v refl h

-- The size is the number of frames that can be evicted.
pub size-order : (s : LruReplacer) → IsValid s → size s ≡ length (frames s.lru_list)
unfolding size
size-order s v = sym (length-frames s.lru_list)

-- The LRU replacer implements the interface.
abbrev pub lru : Replacer
lru = record {
  State = LruReplacer;
  IsValid = IsValid;
  max_size = λ s. s.max_size;
  order = λ s. frames s.lru_list;
  victim = victim;
  pin = pin;
  unpin = unpin;
  size = size;
  order_distinct = λ s v. v.frames_distinct;
  victim_none = victim-none;
  victim_some = victim-some;
  pin_order = order-pin;
  unpin_order = order-unpin;
  size_order = size-order;
}
