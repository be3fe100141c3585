-- ===== src/Replacer/Lru/Queue.antt =====
-- The frames that the LRU replacer's list queues, and when its hash agrees with the list.
use db2024_main.Common.{
  nat_eq, ℕ, suc, ◌+◌, ◌<◌, ◌≤◌, ◌≡◌, refl, ◌≢◌, arith, Bool, true, false, Option, none, some, List,
  [], ◌∷◌, ◌++◌, ◌||◌, if◌then◌else◌, length, lookup, is_some, ◌==◌, elem, remove, Distinct, ap,
}
use db2024_main.Replacer.Lru.{Node, LruReplacer, erase_node}

-- The frames of the list, the next victim first.
unfoldable pub frames : List Node → List ℕ
frames [] = []
frames ((a, frame_id) ∷ l) = frame_id ∷ frames l

-- The address of the node that holds a frame: what the hash should say.
unfoldable pub node_of : ℕ → List Node → Option ℕ
node_of k [] = none
node_of k ((a, frame_id) ∷ l) = if frame_id == k then some a else node_of k l

-- Addresses are distinct, and below the next one that is handed out.
abbrev pub Below : ℕ → List Node → Type 0
Below n [] = Unit
Below n ((a, frame_id) ∷ l) = (a < n) × Below n l

unfoldable pub has_node : ℕ → List Node → Bool
has_node it [] = false
has_node it ((a, frame_id) ∷ l) = (a == it) || has_node it l

abbrev pub Addressed : List Node → Type 0
Addressed [] = Unit
Addressed ((a, frame_id) ∷ l) = (has_node a l ≡ false) × Addressed l

pub record IsValid (s : LruReplacer) : Type 0 where
  pub agree : (k : ℕ) → lookup k s.lru_hash ≡ node_of k s.lru_list
  pub frames_distinct : Distinct (frames s.lru_list)
  pub nodes_distinct : Addressed s.lru_list
  pub nodes_below : Below s.next_node s.lru_list
  pub bounded : length s.lru_list ≤ s.max_size

pub is_some-node_of : (k : ℕ) (l : List Node) → is_some (node_of k l) ≡ elem k (frames l)
unfolding node_of elem frames
is_some-node_of k [] = refl
is_some-node_of k (x ∷ l) = ground (arith, is_some-node_of k l)

pub node_of-none : (k : ℕ) (l : List Node) → elem k (frames l) ≡ false → node_of k l ≡ none
unfolding node_of elem frames
node_of-none k [] h = refl
node_of-none k (x ∷ l) h = ground (arith, node_of-none k l)

pub remove_absent :
    (k : ℕ) (l : List Node) → elem k (frames l) ≡ false → remove k (frames l) ≡ frames l
unfolding remove elem frames
remove_absent k [] h = refl
remove_absent k (x ∷ l) h = ground (arith, remove_absent k l)

pub has_node-node_of : (k it : ℕ) (l : List Node) → node_of k l ≡ some it → has_node it l ≡ true
unfolding node_of has_node
has_node-node_of k it [] h = cc
has_node-node_of k it (x ∷ l) h = ground (arith, has_node-node_of k it l)

-- To erase at the iterator of a frame is to remove the frame.
pub frames-erase_node :
    (k it : ℕ) (l : List Node)
    → Addressed l
    → node_of k l ≡ some it
    → frames (erase_node it l) ≡ remove k (frames l)
unfolding frames erase_node remove node_of
frames-erase_node k it [] d h = refl
frames-erase_node k it ((a, f) ∷ l) d h =
    ground (arith, frames-erase_node k it l d.1, has_node-node_of k it l)

pub node_of-erase_node_ne :
    (j k it : ℕ) (l : List Node)
    → j ≢ k
    → Addressed l
    → node_of k l ≡ some it
    → node_of j (erase_node it l) ≡ node_of j l
unfolding erase_node node_of
node_of-erase_node_ne j k it [] ne d h = refl
node_of-erase_node_ne j k it ((a, f) ∷ l) ne d h =
    ground (arith, node_of-erase_node_ne j k it l ne d.1, has_node-node_of k it l)

pub has_node-erase_node :
    (a it : ℕ) (l : List Node) → has_node a l ≡ false → has_node a (erase_node it l) ≡ false
unfolding erase_node has_node
has_node-erase_node a it [] h = refl
has_node-erase_node a it (x ∷ l) h = ground (arith, has_node-erase_node a it l)

pub Addressed-erase_node : (it : ℕ) (l : List Node) → Addressed l → Addressed (erase_node it l)
unfolding erase_node has_node
Addressed-erase_node it [] d = tt
Addressed-erase_node it ((a, f) ∷ l) d =
    ground (arith, Addressed-erase_node it l d.1, has_node-erase_node a it l)

pub Below-erase_node : (n it : ℕ) (l : List Node) → Below n l → Below n (erase_node it l)
unfolding erase_node
Below-erase_node n it [] d = tt
Below-erase_node n it ((a, f) ∷ l) d = ground (arith, Below-erase_node n it l d.1)

pub length-erase_node : (it : ℕ) (l : List Node) → length (erase_node it l) ≤ length l
unfolding erase_node
length-erase_node it [] = omega arith
length-erase_node it ((a, f) ∷ l) = ground (arith, length-erase_node it l)

pub frames-append : (l : List Node) (a k : ℕ) → frames (l ++ (a, k) ∷ []) ≡ frames l ++ k ∷ []
unfolding frames
frames-append [] a k = refl
frames-append (x ∷ l) a k = ap (◌∷◌ x.1) (frames-append l a k)

pub length-frames : (l : List Node) → length (frames l) ≡ length l
unfolding frames
length-frames [] = refl
length-frames (x ∷ l) = ap suc (length-frames l)

pub node_of-append :
    (l : List Node) (a k j : ℕ)
    → elem k (frames l) ≡ false
    → node_of j (l ++ (a, k) ∷ []) ≡ (if k == j then some a else node_of j l)
unfolding node_of elem frames
node_of-append [] a k j h = refl
node_of-append (x ∷ l) a k j h = ground (arith, node_of-append l a k j)

pub has_node-append :
    (l : List Node) (a k b : ℕ) → has_node b (l ++ (a, k) ∷ []) ≡ (has_node b l || (a == b))
unfolding has_node
has_node-append [] a k b = ground arith
has_node-append (x ∷ l) a k b = ground (arith, has_node-append l a k b)

pub Addressed-append :
    (n k : ℕ) (l : List Node) → Below n l → Addressed l → Addressed (l ++ (n, k) ∷ [])
unfolding has_node
Addressed-append n k [] b d = (refl, tt)
Addressed-append n k ((a, f) ∷ l) b d =
    ground (arith, Addressed-append n k l b.1 d.1, has_node-append l n k a)

pub Below-append : (n k : ℕ) (l : List Node) → Below n l → Below (n + 1) (l ++ (n, k) ∷ [])
Below-append n k [] b = omega arith
Below-append n k ((a, f) ∷ l) b = (omega arith, Below-append n k l b.1)
