-- ===== src/Execution/Join/Tuples.antt =====
-- The tuples of a nested loop join, from the lists of the tuples of its two sides.
use db2024_main.Common.{
  ℕ, Bool, List, [], ap, get_elem?, if◌then◌else◌, refl, some, suc, take, zero, ◌++◌, ◌∙◌, ◌∷◌, ◌≡◌,
  Bool-cases, arith, get_or, inl, inr, length, map, none, ◌<◌, append_assoc,
}

module _ {A B : Type 0} (accepts : A → B → Bool) where
  -- The tuples that the conditions accept, of one left tuple with the right ones from the last to
  -- the first.
  abbrev pub row : A → List B → List (A × B)
  row a [] = []
  row a (b ∷ bs) = row a bs ++ (if accepts a b then (a, b) ∷ [] else [])

  abbrev pub joined : List A → List B → List (A × B)
  joined [] bs = []
  joined (a ∷ rest) bs = row a bs ++ joined rest bs

  pub joined_nil : (l : List A) → joined l [] ≡ []
  joined_nil [] = refl
  joined_nil (a ∷ l) = joined_nil l

  pub row-append :
      (a : A) (b : B) (bs : List B)
      → row a (bs ++ b ∷ []) ≡ (if accepts a b then (a, b) ∷ [] else []) ++ row a bs
  row-append a b [] = elim (Bool-cases (accepts a b)) [
    | inl good ↦ rw good refl
    | inr bad ↦ rw bad refl
  ]
  row-append a b (c ∷ bs) =
      ap (λ l. l ++ (if accepts a c then (a, c) ∷ [] else [])) (row-append a b bs)
      ∙ append_assoc (if accepts a b then (a, b) ∷ [] else []) (row a bs)
          (if accepts a c then (a, c) ∷ [] else [])

  -- One right tuple more at the end stands first in the row.
  pub row-take :
      (a : A) (b : B) (k : ℕ) (bs : List B)
      → get_elem? bs k ≡ some b
      → row a (take (suc k) bs) ≡ (if accepts a b then (a, b) ∷ [] else []) ++ row a (take k bs)
  row-take a b k bs h = ap (row a) (take_suc k bs h) ∙ row-append a b (take k bs)
    where
      take_suc :
          (k : ℕ) (bs : List B) → get_elem? bs k ≡ some b → take (suc k) bs ≡ take k bs ++ b ∷ []
      take_suc k [] h = cc (h)
      take_suc zero (c ∷ bs) h = cc (h)
      take_suc (suc k) (c ∷ bs) h = ap (◌∷◌ c) (take_suc k bs h)

-- The tuple at a position, in the list and in the list of pointers to the tuples.
pub tuple_at :
    {B : Type 0} (k : ℕ) (bs : List B)
    → k < length bs
    → (b : B) × (get_elem? bs k ≡ some b) × (get_or (map some bs) k none ≡ some b)
tuple_at k [] lt = absurd (omega arith)
tuple_at zero (b ∷ bs) lt = (b, refl, refl)
tuple_at (suc k) (b ∷ bs) lt = tuple_at k bs (omega arith)

pub take_all : {B : Type 0} (bs : List B) → take (length bs) bs ≡ bs
take_all [] = refl
take_all (b ∷ bs) = ap (◌∷◌ b) (take_all bs)

pub length-map : {B C : Type 0} (f : B → C) (bs : List B) → length (map f bs) ≡ length bs
length-map f [] = refl
length-map f (b ∷ bs) = omega (arith, length-map f bs)
