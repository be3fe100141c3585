-- ===== src/Execution/SeqScan/Match.antt =====
-- Where the loop of a sequential scan stops.
use db2024_main.Common.{
  ℕ, ℤ, Bool, Bool-cases, List, arith, false, inl, inr, ltb, ltb→lt, none, ok, pos, some, sym, true,
  ◌*◌, ◌+◌, ◌<◌, ◌∙◌, ◌≡◌, ◌≤◌, ◌⊎◌, subst,
}
use db2024_main.Catalog.{ColMeta}
use db2024_main.Query.{Condition, Floats}
use db2024_main.Query.Eval.{eval_conds}
use db2024_main.Record.File.{Rid}
use db2024_main.Record.File.Valid.{in_file, per_page, record_at}
use db2024_main.Record.File.Access.{rid_at}
use db2024_main.Record.Scan.{end_rid}
use db2024_main.Record.Scan.First.{Moved, behind, at, at_end}
use db2024_main.Execution.SeqScan.{Table}

-- The place of a slot among the slots of the file.
abbrev pub place : ℕ → ℕ → ℕ → ℕ
place per n i = n * per + i

pub in_range :
    (m i : ℕ) (s : Table) (d : List ℕ)
    → record_at m i s ≡ some d
    → (in_file m s ≡ true) × (m < s.hdr.num_pages) × (i < per_page s)
unfolding record_at
in_range m i s d h = ground arith

row_le : (a b per : ℕ) → a < b → a * per + per ≤ b * per
row_le a b per h = grind arith

same_page : (m i k j : ℕ) → behind m (pos i) k j ≡ true → ltb m k ≡ false → (m ≡ k) × (i < j)
same_page m i k j b e = ground arith

pub place-lt :
    (per m i k j : ℕ) → i < per → behind m (pos i) k j ≡ true → place per m i < place per k j
place-lt per m i k j h b = elim (Bool-cases (ltb m k)) [
  | inl e ↦ omega (arith, row_le m k per (ltb→lt m k e))
  | inr e ↦ let (same, later) = same_page m i k j b e in rw same (omega (arith, later))
]

pub place-lt-count : (per num m i : ℕ) → m < num → i < per → place per m i < num * per
place-lt-count per num m i h k = omega (arith, row_le m num per h)

behind_trans :
    (n : ℕ) (z : ℤ) (m i k j : ℕ)
    → behind n z m i ≡ true
    → behind m (pos i) k j ≡ true
    → behind n z k j ≡ true
behind_trans n z m i k j a b = ground arith

behind-cases :
    (m i k j : ℕ)
    → (behind m (pos i) k j ≡ true) ⊎ (((k ≡ m) × (j ≡ i)) ⊎ (behind k (pos j) m i ≡ true))
behind-cases m i k j = elim (Bool-cases (behind m (pos i) k j)) [
  | inl e ↦ inl e
  | inr e ↦
      inr (elim (Bool-cases (behind k (pos j) m i)) [ inl f ↦ inr f | inr f ↦ inl (ground arith) ])
]

-- A move, seen from a file with the same records.
pub Moved-same :
    (n : ℕ) (z : ℤ) (s t : Table) (rid : Rid)
    → ((m j : ℕ) → record_at m j t ≡ record_at m j s)
    → t.hdr ≡ s.hdr
    → Moved n z t rid
    → Moved n z s rid
Moved-same n z s t rid same hdr (at m i d b r before) =
    at m i d b (sym (same m i) ∙ r) (λ k j x y. sym (same k j) ∙ before k j x y)
Moved-same n z s t rid same hdr (at_end before) =
    subst (λ h. Moved n z s (end_rid h.num_pages)) (sym hdr)
      (at_end (λ k j x. sym (same k j) ∙ before k j x))

module _ {F D : Type 0} (fl : Floats F D) (cols : List ColMeta) (conds : List (Condition F)) where
  abbrev pub Meets : List ℕ → Bool → Type 0
  Meets d b = eval_conds fl cols d conds ≡ ok b

  -- The first record behind the slot `z` of the page `n` that meets the conditions, or the end when
  -- none does.
  pub data Match (n : ℕ) (z : ℤ) (s : Table) : Rid → Type 0 where
    here :
        (m i : ℕ) (d : List ℕ)
        → behind n z m i ≡ true
        → record_at m i s ≡ some d
        → eval_conds fl cols d conds ≡ ok true
        → ((k j : ℕ) (e : List ℕ)
            → behind n z k j ≡ true
            → behind k (pos j) m i ≡ true
            → record_at k j s ≡ some e
            → eval_conds fl cols e conds ≡ ok false)
        → Match n z s (rid_at m i)
    nowhere :
        ((k j : ℕ) (e : List ℕ)
          → behind n z k j ≡ true
          → record_at k j s ≡ some e
          → eval_conds fl cols e conds ≡ ok false)
        → Match n z s (end_rid s.hdr.num_pages)

  -- The records up to one that does not meet the conditions are passed.
  passed :
      (n : ℕ) (z : ℤ) (s : Table) (m i : ℕ) (d : List ℕ)
      → record_at m i s ≡ some d
      → Meets d false
      → ((k j : ℕ) → behind n z k j ≡ true → behind k (pos j) m i ≡ true → record_at k j s ≡ none)
      → (k j : ℕ) (e : List ℕ) → behind n z k j ≡ true
      → record_at k j s ≡ some e
      → (behind m (pos i) k j ≡ true → Meets e false)
      → Meets e false
  passed n z s m i d r fails before k j e from re later = elim (behind-cases m i k j) [
    | inl f ↦ later f
    | inr (inl (sk, sj)) ↦
        let one : some e ≡ some d = sym re ∙ rw (sk, sj) r in
        let same : e ≡ d = cc (one) in rw same fails
    | inr (inr f) ↦ let one : none ≡ some e = sym (before k j from f) ∙ re in cc (one)
  ]

  pub Match-after :
      (n : ℕ) (z : ℤ) (s : Table) (m i : ℕ) (d : List ℕ) (rid : Rid)
      → behind n z m i ≡ true
      → record_at m i s ≡ some d
      → Meets d false
      → ((k j : ℕ) → behind n z k j ≡ true → behind k (pos j) m i ≡ true → record_at k j s ≡ none)
      → Match m (pos i) s rid
      → Match n z s rid
  Match-after n z s m i d rid b r fails before (here k j e bk rk ek first) =
      here k j e (behind_trans n z m i k j b bk) rk ek (λ x y f from to rx.
        passed n z s m i d r fails before x y f from rx (λ later. first x y f later to rx))
  Match-after n z s m i d rid b r fails before (nowhere first) = nowhere (λ x y f from rx.
      passed n z s m i d r fails before x y f from rx (λ later. first x y f later rx))
