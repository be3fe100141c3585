-- ===== src/Execution/Projection.antt =====
-- execution/executor_projection.h: the columns of a projection and the record that it copies. A
-- record is its bytes. `sel_idxs_` is only read to find a column of the executor below: the model
-- keeps that column.
pub mod Pieces
mod Tests
use db2024_main.Common.{
  ℕ, List, Option, Result, Text, [], drop, length, none, ok, some, take, ◌+◌, ◌++◌, ◌∷◌,
}
use db2024_main.Common.Results.{◌>>=◌}
use db2024_main.Catalog.{ColMeta}
use db2024_main.Query.{TabCol}
use db2024_main.Query.Eval.{get_col_at}

-- An entry of `cols_` and the column that it is copied from.
pub record Column : Type 0 where
  pub out : ColMeta
  pub src : ColMeta

-- The output name, if one is given.
unfoldable pub renamed : List Text → ColMeta → ColMeta
renamed [] col = col
renamed (name ∷ output_names) col = record col { name = name }

unfoldable pub behind_first : List Text → List Text
behind_first [] = []
behind_first (name ∷ output_names) = output_names

-- The loop of the constructor, with `curr_offset`.
unfoldable pub make_columns : List ColMeta → List TabCol → List Text → ℕ → Result (List Column)
unfolding renamed behind_first
make_columns prev_cols [] output_names curr_offset = ok []
make_columns prev_cols (sel_col ∷ sel_cols) output_names curr_offset = do
  col ← get_col_at prev_cols sel_col
  rest ← make_columns prev_cols sel_cols (behind_first output_names) (curr_offset + col.len)
  ok (record { out = renamed output_names (record col { offset = curr_offset }); src = col } ∷ rest)

-- `len_`, from `curr_offset` on.
unfoldable pub total_len : List Column → ℕ → ℕ
total_len [] curr_offset = curr_offset
total_len (c ∷ columns) curr_offset = total_len columns (curr_offset + c.src.len)

-- `memcpy(rec->data + offset, bytes, length)`
unfoldable pub write_at : ℕ → List ℕ → List ℕ → List ℕ
write_at offset bytes rec = take offset rec ++ (bytes ++ drop (offset + length bytes) rec)

-- The loop of `Next` on a new record.
unfoldable pub copy_columns : List Column → List ℕ → List ℕ → List ℕ
unfolding write_at
copy_columns [] prev_rec rec = rec
copy_columns (c ∷ columns) prev_rec rec =
    copy_columns columns prev_rec
      (write_at c.out.offset (take c.src.len (drop c.src.offset prev_rec)) rec)

-- `Next`, where `blank` is the new record of `len_` bytes.
unfoldable pub project : List Column → List ℕ → Option (List ℕ) → Option (List ℕ)
unfolding copy_columns
project columns blank none = none
project columns blank (some prev_rec) = some (copy_columns columns prev_rec blank)
