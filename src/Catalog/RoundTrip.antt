-- ===== src/Catalog/RoundTrip.antt =====
-- What `<<` of the catalog writes, `>>` reads back: columns, indexes and tables.
use db2024_main.Common.{
  ℕ, Bool, List, [], ap, arith, false, not, refl, some, true, ◌++◌, ◌<◌, ◌==◌, ◌∙◌, ◌∷◌, ◌≡◌, All,
  length, subst, sym,
}
use db2024_main.Catalog.{ColMeta, ColType, IndexMeta, TabMeta, type_float, type_int, type_string}
use db2024_main.Catalog.Stream.{
  Ends, IsName, Stream, is_blank, read_number, read_number-write_number, read_text, read_text-name,
  skip_blanks, write_number,
}
use db2024_main.Catalog.Words.{
  Reader, bind_read, bool_limit, bool_number, int_limit, number_type, read_all, read_col,
  read_index, read_table, size_limit, type_number, write_behind, write_col, write_index,
  write_lines, write_table, ◌>>=◌,
}

pub bind_some :
    {A B : Type 0} (m : Reader A) (f : A → Reader B) (s r : Stream) (a : A)
    → m s ≡ some (a, r)
    → (m >>= f) s ≡ f a r
bind_some m f s r a e = ap (λ o. bind_read o f) e

pub number_type-type_number : (t : ColType) → number_type (type_number t) ≡ t
unfolding number_type type_number
number_type-type_number type_int = refl
number_type-type_number type_float = refl
number_type-type_number type_string = refl

type_number-limit : (t : ColType) → type_number t < int_limit
unfolding type_number
type_number-limit type_int = omega arith
type_number-limit type_float = omega arith
type_number-limit type_string = omega arith

bool_number-limit : (b : Bool) → bool_number b < bool_limit
unfolding bool_number
bool_number-limit true = omega arith
bool_number-limit false = omega arith

bool_number-back : (b : Bool) → not (bool_number b == 0) ≡ b
unfolding bool_number
bool_number-back true = refl
bool_number-back false = refl

-- A blank before a value is skipped.
read_text-blank : (c : ℕ) (s : Stream) → is_blank c ≡ true → read_text (c ∷ s) ≡ read_text s
unfolding read_text skip_blanks
read_text-blank c s h = rw h refl

read_number-blank :
    (limit c : ℕ) (s : Stream) → is_blank c ≡ true → read_number limit (c ∷ s) ≡ read_number limit s
unfolding read_number skip_blanks
read_number-blank limit c s h = rw h refl

-- A number behind a blank.
pub next_number :
    (limit c n : ℕ) (r : Stream)
    → is_blank c ≡ true
    → n < limit
    → Ends r
    → read_number limit (c ∷ write_number n r) ≡ some (n, r)
next_number limit c n r b h e =
    read_number-blank limit c (write_number n r) b ∙ read_number-write_number limit n r h e

next_text :
    (c : ℕ) (t : List ℕ) (r : Stream)
    → is_blank c ≡ true
    → IsName t
    → Ends r
    → read_text (c ∷ (t ++ r)) ≡ some (t, r)
next_text c t r b n e = read_text-blank c (t ++ r) b ∙ read_text-name t r n e

-- Names that are read back, and lengths that fit.
pub record IsCol (c : ColMeta) : Type 0 where
  pub tab_name : IsName c.tab_name
  pub name : IsName c.name
  pub len : c.len < int_limit
  pub offset : c.offset < int_limit

read_col-write_col :
    (c : ColMeta) (after : Stream)
    → IsCol c
    → Ends after
    → read_col (write_col c after) ≡ some (c, after)
unfolding read_col write_col
read_col-write_col c after h e =
    let five : Stream = b' ' ∷ write_number (bool_number c.index) after in
    let four : Stream = b' ' ∷ write_number c.offset five in
    let three : Stream = b' ' ∷ write_number c.len four in
    let two : Stream = b' ' ∷ write_number (type_number c.type) three in
    let one : Stream = b' ' ∷ (c.name ++ two) in
    bind_some read_text _ (c.tab_name ++ one) one c.tab_name
      (read_text-name c.tab_name one h.tab_name refl)
    ∙ bind_some read_text _ one two c.name (next_text b' ' c.name two refl h.name refl)
    ∙ bind_some (read_number int_limit) _ two three (type_number c.type)
        (next_number int_limit b' ' (type_number c.type) three refl (type_number-limit c.type) refl)
    ∙ bind_some (read_number int_limit) _ three four c.len
        (next_number int_limit b' ' c.len four refl h.len refl)
    ∙ bind_some (read_number int_limit) _ four five c.offset
        (next_number int_limit b' ' c.offset five refl h.offset refl)
    ∙ bind_some (read_number bool_limit) _ five after (bool_number c.index)
        (next_number bool_limit b' ' (bool_number c.index) after refl (bool_number-limit c.index) e)
    ∙ rw (number_type-type_number c.type, bool_number-back c.index) refl

bind_blank :
    {B : Type 0} (f : List ℕ → Reader B) (c : ℕ) (s : Stream)
    → is_blank c ≡ true
    → bind_read (read_text (c ∷ s)) f ≡ bind_read (read_text s) f
bind_blank f c s b = ap (λ o. bind_read o f) (read_text-blank c s b)

read_col-blank : (c : ℕ) (s : Stream) → is_blank c ≡ true → read_col (c ∷ s) ≡ read_col s
unfolding read_col
read_col-blank c s b = bind_blank _ c s b

read_index-blank : (c : ℕ) (s : Stream) → is_blank c ≡ true → read_index (c ∷ s) ≡ read_index s
unfolding read_index
read_index-blank c s b = bind_blank _ c s b

pub read_table-blank : (c : ℕ) (s : Stream) → is_blank c ≡ true → read_table (c ∷ s) ≡ read_table s
unfolding read_table
read_table-blank c s b = bind_blank _ c s b

-- Lists of values that are read back behind a newline.
module _ {A : Type 0} (write : A → Stream → Stream) (read : Reader A) (P : A → Type 0)
    (one : (a : A) (after : Stream)
      → P a
      → Ends after
      → read (b'\n' ∷ write a after) ≡ some (a, after)) where
  read_all-write_lines :
      (l : List A) (after : Stream)
      → All P l
      → read_all read (length l) (b'\n' ∷ write_lines write l after) ≡ some (l, b'\n' ∷ after)
  unfolding read_all write_lines
  read_all-write_lines [] after p = refl
  read_all-write_lines (a ∷ l) after p =
      bind_some read _ (b'\n' ∷ write a (b'\n' ∷ write_lines write l after))
        (b'\n' ∷ write_lines write l after) a (one a (b'\n' ∷ write_lines write l after) p.0 refl)
      ∙ bind_some (read_all read (length l)) _ (b'\n' ∷ write_lines write l after) (b'\n' ∷ after) l
          (read_all-write_lines l after p.1)

  Ends-write_behind : (l : List A) (after : Stream) → Ends after → Ends (write_behind write l after)
  unfolding write_behind
  Ends-write_behind [] after e = e
  Ends-write_behind (a ∷ l) after e = refl

  read_all-write_behind :
      (l : List A) (after : Stream)
      → All P l
      → Ends after
      → read_all read (length l) (write_behind write l after) ≡ some (l, after)
  unfolding read_all write_behind
  read_all-write_behind [] after p e = refl
  read_all-write_behind (a ∷ l) after p e =
      bind_some read _ (b'\n' ∷ write a (write_behind write l after)) (write_behind write l after) a
        (one a (write_behind write l after) p.0 (Ends-write_behind l after e))
      ∙ bind_some (read_all read (length l)) _ (write_behind write l after) after l
          (read_all-write_behind l after p.1 e)

next_col :
    (c : ColMeta) (after : Stream)
    → IsCol c
    → Ends after
    → read_col (b'\n' ∷ write_col c after) ≡ some (c, after)
next_col c after h e =
    read_col-blank b'\n' (write_col c after) refl ∙ read_col-write_col c after h e

-- `col_num` is the number of columns.
pub record IsIndex (i : IndexMeta) : Type 0 where
  pub tab_name : IsName i.tab_name
  pub col_tot_len : i.col_tot_len < int_limit
  pub col_num : i.col_num < int_limit
  pub counted : i.col_num ≡ length i.cols
  pub cols : All IsCol i.cols

next_index :
    (i : IndexMeta) (after : Stream)
    → IsIndex i
    → Ends after
    → read_index (b'\n' ∷ write_index i after) ≡ some (i, after)
unfolding read_index write_index
next_index i after h e =
    let cols : Stream = write_behind write_col i.cols after in
    let two : Stream = b' ' ∷ write_number i.col_num cols in
    let one : Stream = b' ' ∷ write_number i.col_tot_len two in
    bind_some read_text _ (b'\n' ∷ (i.tab_name ++ one)) one i.tab_name
      (next_text b'\n' i.tab_name one refl h.tab_name refl)
    ∙ bind_some (read_number int_limit) _ one two i.col_tot_len
        (next_number int_limit b' ' i.col_tot_len two refl h.col_tot_len refl)
    ∙ bind_some (read_number int_limit) _ two cols i.col_num (
        next_number int_limit b' ' i.col_num cols refl h.col_num
          (Ends-write_behind write_col read_col IsCol next_col i.cols after e))
    ∙ bind_some (read_all read_col i.col_num) _ cols after i.cols (
        subst (λ n. read_all read_col n cols ≡ some (i.cols, after)) (sym h.counted)
          (read_all-write_behind write_col read_col IsCol next_col i.cols after h.cols e))

pub record IsTable (t : TabMeta) : Type 0 where
  pub name : IsName t.name
  pub col_count : length t.cols < size_limit
  pub cols : All IsCol t.cols
  pub index_count : length t.indexes < size_limit
  pub indexes : All IsIndex t.indexes

pub read_table-write_table :
    (t : TabMeta) (after : Stream)
    → IsTable t
    → read_table (write_table t after) ≡ some (t, b'\n' ∷ after)
unfolding read_table write_table
read_table-write_table t after h =
    let indexes : Stream = b'\n' ∷ write_lines write_index t.indexes after in
    let more : Stream = write_number (length t.indexes) indexes in
    let cols : Stream = b'\n' ∷ write_lines write_col t.cols more in
    let count : Stream = b'\n' ∷ write_number (length t.cols) cols in
    bind_some read_text _ (t.name ++ count) count t.name (read_text-name t.name count h.name refl)
    ∙ bind_some (read_number size_limit) _ count cols (length t.cols)
        (next_number size_limit b'\n' (length t.cols) cols refl h.col_count refl)
    ∙ bind_some (read_all read_col (length t.cols)) _ cols (b'\n' ∷ more) t.cols
        (read_all-write_lines write_col read_col IsCol next_col t.cols more h.cols)
    ∙ bind_some (read_number size_limit) _ (b'\n' ∷ more) indexes (length t.indexes)
        (next_number size_limit b'\n' (length t.indexes) indexes refl h.index_count refl)
    ∙ bind_some (read_all read_index (length t.indexes)) _ indexes (b'\n' ∷ after) t.indexes
        (read_all-write_lines write_index read_index IsIndex next_index t.indexes after h.indexes)
