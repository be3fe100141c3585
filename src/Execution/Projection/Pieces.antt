-- ===== src/Execution/Projection/Pieces.antt =====
-- The record of a projection is the selected columns one after another.
use db2024_main.Common.{
  ℕ, All, List, Text, [], append_assoc, arith, drop, length, length-append, length-drop,
  length-take, none, ok, refl, some, suc, sym, take, ◌+◌, ◌++◌, ◌∙◌, ◌∷◌, ◌≡◌, ◌≤◌, ap, subst,
}
use db2024_main.Common.Results.{>>=-eq-ok}
use db2024_main.Catalog.{ColMeta}
use db2024_main.Query.{TabCol}
use db2024_main.Query.Eval.{get_col_at}
use db2024_main.Execution.Projection.{
  Column, behind_first, copy_columns, make_columns, project, renamed, total_len, write_at,
}

-- The bytes of a column, and those of several columns one after another.
unfoldable pub piece : Column → List ℕ → List ℕ
piece c rec = take c.src.len (drop c.src.offset rec)

unfoldable pub pieces : List Column → List ℕ → List ℕ
pieces [] rec = []
pieces (c ∷ columns) rec = piece c rec ++ pieces columns rec

-- The columns lie in a record.
abbrev pub Inside : List Column → List ℕ → Type 0
Inside columns rec = All (λ (c : Column). c.src.offset + c.src.len ≤ length rec) columns

empty_rest : (l : List ℕ) → length l ≡ 0 → l ≡ []
empty_rest [] h = refl
empty_rest (x ∷ l) h = absurd (omega (arith, h))

take-front : (a b : List ℕ) → take (length a) (a ++ b) ≡ a
take-front [] b = refl
take-front (x ∷ a) b = ap (◌∷◌ x) (take-front a b)

drop-front : (a b : List ℕ) (k : ℕ) → drop (length a + k) (a ++ b) ≡ drop k b
drop-front [] b k = ap (λ n. drop n b) (omega arith)
drop-front (x ∷ a) b k =
    ap (λ n. drop n (x ∷ (a ++ b)))
      (let e : suc (length a) + k ≡ suc (length a + k) = omega arith in e)
    ∙ drop-front a b k

-- A write behind what is done.
write_at-done :
    (done bytes rest : List ℕ)
    → write_at (length done) bytes (done ++ rest) ≡ (done ++ bytes) ++ drop (length bytes) rest
unfolding write_at
write_at-done done bytes rest =
    rw (take-front done rest, drop-front done rest (length bytes))
      (sym (append_assoc done bytes (drop (length bytes) rest)))

-- The columns of the new record stand one after another.
abbrev Placed : List Column → ℕ → Type 0
Placed [] offset = Unit
Placed (c ∷ columns) offset = (c.out.offset ≡ offset) × Placed columns (offset + c.src.len)

renamed-offset : (names : List Text) (c : ColMeta) → (renamed names c).offset ≡ c.offset
unfolding renamed
renamed-offset [] c = refl
renamed-offset (n ∷ names) c = refl

make_columns-Placed :
    (prev_cols : List ColMeta) (sel_cols : List TabCol) (names : List Text) (offset : ℕ)
    (columns : List Column)
    → make_columns prev_cols sel_cols names offset ≡ ok columns
    → Placed columns offset
unfolding make_columns
make_columns-Placed prev_cols [] names offset columns h =
    let same : [] ≡ columns = cc (h) in subst (λ l. Placed l offset) same tt
make_columns-Placed prev_cols (s ∷ sel_cols) names offset columns h =
    let (col, e1, h1) = >>=-eq-ok (get_col_at prev_cols s) _ h in
    let (more, e2, h2) =
      >>=-eq-ok (make_columns prev_cols sel_cols (behind_first names) (offset + col.len)) _ h1 in
    let first : Column = record {
      out = renamed names (record col { offset = offset });
      src = col;
    } in
    let same : first ∷ more ≡ columns = cc (h2) in
    subst (λ l. Placed l offset) same
      (
        renamed-offset names (record col { offset = offset }),
        make_columns-Placed prev_cols sel_cols (behind_first names) (offset + col.len) more e2,
      )

le-total_len : (columns : List Column) (offset : ℕ) → offset ≤ total_len columns offset
unfolding total_len
le-total_len [] offset = omega arith
le-total_len (c ∷ columns) offset = omega (arith, le-total_len columns (offset + c.src.len))

copy_columns-pieces :
    (columns : List Column) (prev_rec done rest : List ℕ)
    → Placed columns (length done)
    → Inside columns prev_rec
    → total_len columns (length done) ≡ length done + length rest
    → copy_columns columns prev_rec (done ++ rest) ≡ done ++ pieces columns prev_rec
unfolding copy_columns pieces piece total_len
copy_columns-pieces [] prev_rec done rest p inside len =
    ap (λ l. done ++ l) (empty_rest rest (omega (arith, len)))
copy_columns-pieces (c ∷ columns) prev_rec done rest p inside len =
    let bytes = take c.src.len (drop c.src.offset prev_rec) in
    let full : length bytes ≡ c.src.len = omega (
      arith,
      length-take c.src.len (drop c.src.offset prev_rec),
      length-drop c.src.offset prev_rec,
      inside.0,
    ) in
    let long : length (done ++ bytes) ≡ length done + c.src.len =
      omega (arith, length-append done bytes, full) in
    rw (p.0, write_at-done done bytes rest)
      (copy_columns-pieces columns prev_rec (done ++ bytes) (drop (length bytes) rest)
          (subst (Placed columns) (sym long) p.1) inside.1
          (rw long (
            omega (
              arith,
              len,
              full,
              length-drop (length bytes) rest,
              le-total_len columns (length done + c.src.len),
            )))
        ∙ append_assoc done bytes (pieces columns prev_rec))

-- Where the selected columns are found and lie in the record of the executor below, `Next` on a new
-- record of the projection's length gives the bytes of the selected columns, one after another in
-- their order, whatever the new record held, and a null record for a null one.
pub project-pieces :
    (prev_cols : List ColMeta) (sel_cols : List TabCol) (names : List Text) (columns : List Column)
    (blank prev_rec : List ℕ)
    → make_columns prev_cols sel_cols names 0 ≡ ok columns
    → All (λ (c : Column). c.src.offset + c.src.len ≤ length prev_rec) columns
    → length blank ≡ total_len columns 0
    → (project columns blank (some prev_rec) ≡ some (pieces columns prev_rec))
      × (project columns blank none ≡ none)
unfolding project
project-pieces prev_cols sel_cols names columns blank prev_rec h inside len = (
  ap some (
      copy_columns-pieces columns prev_rec [] blank
        (make_columns-Placed prev_cols sel_cols names 0 columns h) inside (omega (arith, len))),
  refl,
)
