-- ===== src/Execution/Executor.antt =====
-- execution/executor_abstract.h, the abstract class `AbstractExecutor`: the operations that an executor
-- on top of another calls. An operation can throw; the statement ends then, and the state is lost.
use db2024_main.Common.{Bool, List, Option, [], Result, false, ok, some, true, ◌∷◌, ◌≡◌}

pub record Executor (A : Type 0) : Type 1 where
  pub State : Type 0
  pub begin_tuple : State → Result State
  pub next_tuple : State → Result State
  pub is_end : State → Bool
  -- `Next()`, where `none` is the null pointer.
  pub next : State → Result (Option A × State)

module _ {A : Type 0} (E : Executor A) where
  -- From the state on, `Next` and `nextTuple` by turns give the tuples of the list, and then the end.
  abbrev pub Yields : E.State → List A → Type 0
  Yields s [] = E.is_end s ≡ true
  Yields s (a ∷ l) =
      (E.is_end s ≡ false)
      × ((t : E.State) × (E.next s ≡ ok (some a, t))
          × ((u : E.State) × (E.next_tuple t ≡ ok u) × Yields u l))

  -- The same from `nextTuple` on.
  abbrev pub YieldsNext : E.State → List A → Type 0
  YieldsNext t l = (u : E.State) × (E.next_tuple t ≡ ok u) × Yields u l

  -- The same from `beginTuple` on.
  abbrev pub YieldsAll : E.State → List A → Type 0
  YieldsAll s l = (t : E.State) × (E.begin_tuple s ≡ ok t) × Yields t l
