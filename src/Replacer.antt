-- ===== src/Replacer.antt =====
-- replacer/replacer.h, the abstract class `Replacer`: its operations, and what the buffer pool
-- relies on, said of the frames that can be evicted in the order of eviction.
pub mod Lru
use db2024_main.Common.{
  ℕ, ◌≡◌, Option, none, some, List, [], ◌∷◌, ◌++◌, ltb, if◌then◌else◌, length, elem, remove,
  Distinct,
}

-- `unpin` adds a frame at the back, unless it is there already or the replacer is full.
abbrev pub queue_unpin : ℕ → ℕ → List ℕ → List ℕ
queue_unpin max_size frame_id frames =
    if elem frame_id frames
    then frames
    else if ltb (length frames) max_size
    then frames ++ frame_id ∷ []
    else frames

pub record Replacer : Type 1 where
  pub State : Type 0
  pub IsValid : State → Type 0
  pub max_size : State → ℕ
  pub order : State → List ℕ
  pub victim : State → State × Option ℕ
  pub pin : ℕ → State → State
  pub unpin : ℕ → State → State
  pub size : State → ℕ
  pub order_distinct : (s : State) → IsValid s → Distinct (order s)
  pub victim_none : (s : State) → IsValid s → order s ≡ [] → victim s ≡ (s, none)
  pub victim_some :
      (s : State) (frame_id : ℕ) (rest : List ℕ)
      → IsValid s
      → order s ≡ frame_id ∷ rest
      → ((victim s).1 ≡ some frame_id)
        × (order (victim s).0 ≡ rest)
        × IsValid (victim s).0
        × (max_size (victim s).0 ≡ max_size s)
  pub pin_order :
      (s : State) (frame_id : ℕ)
      → IsValid s
      → (order (pin frame_id s) ≡ remove frame_id (order s))
        × IsValid (pin frame_id s)
        × (max_size (pin frame_id s) ≡ max_size s)
  pub unpin_order :
      (s : State) (frame_id : ℕ)
      → IsValid s
      → (order (unpin frame_id s) ≡ queue_unpin (max_size s) frame_id (order s))
        × IsValid (unpin frame_id s)
        × (max_size (unpin frame_id s) ≡ max_size s)
  pub size_order : (s : State) → IsValid s → size s ≡ length (order s)
