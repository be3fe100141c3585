-- ===== src/Index/FileHeader/Bytes.antt =====
-- The header of an index file as bytes.
use db2024_main.Common.{
  ℕ, ℤ, List, [], All, IsInt, arith, int_bytes, length, read_int, read_int-int_bytes, refl, take,
  ◌*◌, ◌++◌, ◌<◌, ◌∷◌, ◌≡◌, ap, drop, map, pos, subst, suc, append_assoc, length-append, ◌+◌, ◌∙◌,
  assertion_failed, false, int_eq, ok, raise, int_eq_iff, sym, true,
}
use db2024_main.Catalog.{ColType, type_int, type_float, type_string}
use db2024_main.Catalog.Words.{type_number, number_type}
use db2024_main.Catalog.RoundTrip.{number_type-type_number}
use db2024_main.Index.FileHeader.{
  IxFileHdr, deserialize, read_header, unless_short, header_bytes, loop_bound, read_ints, serialize,
  update_tot_len, write_ints,
}

-- Every field is an `int`, and there are as many columns as the header says.
pub record IsHeader (h : IxFileHdr) : Type 0 where
  pub first_free_page_no : IsInt h.first_free_page_no
  pub num_pages : IsInt h.num_pages
  pub root_page : IsInt h.root_page
  pub col_num : h.col_num < 2147483648
  pub types : length h.col_types ≡ h.col_num
  pub lens : length h.col_lens ≡ h.col_num
  pub each_len : All IsInt h.col_lens
  pub col_tot_len : IsInt h.col_tot_len
  pub btree_order : IsInt h.btree_order
  pub keys_size : IsInt h.keys_size
  pub first_leaf : IsInt h.first_leaf
  pub last_leaf : IsInt h.last_leaf
  pub tot_len : IsInt h.tot_len
  pub has_tot_len : h.tot_len ≡ (update_tot_len h).tot_len

read_int-written : (z : ℤ) (rest : List ℕ) → IsInt z → read_int (int_bytes z ++ rest) ≡ z
unfolding read_int int_bytes
read_int-written z rest h = read_int-int_bytes z h

read_ints-write_ints :
    (zs : List ℤ) (rest : List ℕ)
    → All IsInt zs
    → read_ints (length zs) (write_ints zs ++ rest) ≡ (zs, rest)
unfolding read_ints write_ints int_bytes
read_ints-write_ints [] rest p = refl
read_ints-write_ints (z ∷ zs) rest p =
    rw (read_int-written z (write_ints zs ++ rest) p.0, read_ints-write_ints zs rest p.1) refl

take-length : {A : Type 0} (l : List A) → take (length l) l ≡ l
take-length [] = refl
take-length (x ∷ l) = ap (λ m. x ∷ m) (take-length l)

take_whole : {A : Type 0} (n : ℕ) (l : List A) → length l ≡ n → take n l ≡ l
take_whole n l h = subst (λ m. take m l ≡ l) h (take-length l)

length-write_ints : (zs : List ℤ) → length (write_ints zs) ≡ 4 * length zs
unfolding write_ints int_bytes
length-write_ints [] = refl
length-write_ints (z ∷ zs) = ground (arith, length-write_ints zs)

-- Five integers at the start of a buffer, and what is behind them.
five_ints :
    (a b c d e : ℤ) (rest : List ℕ)
    → All IsInt (a ∷ b ∷ c ∷ d ∷ e ∷ [])
    → (read_int (write_ints (a ∷ b ∷ c ∷ d ∷ e ∷ []) ++ rest) ≡ a)
      × (read_int (drop 4 (write_ints (a ∷ b ∷ c ∷ d ∷ e ∷ []) ++ rest)) ≡ b)
      × (read_int (drop 8 (write_ints (a ∷ b ∷ c ∷ d ∷ e ∷ []) ++ rest)) ≡ c)
      × (read_int (drop 12 (write_ints (a ∷ b ∷ c ∷ d ∷ e ∷ []) ++ rest)) ≡ d)
      × (read_int (drop 16 (write_ints (a ∷ b ∷ c ∷ d ∷ e ∷ []) ++ rest)) ≡ e)
      × (drop 20 (write_ints (a ∷ b ∷ c ∷ d ∷ e ∷ []) ++ rest) ≡ rest)
unfolding read_int write_ints int_bytes
five_ints a b c d e rest (pa, (pb, (pc, (pd, (pe, u))))) = (
  read_int-int_bytes a pa,
  read_int-int_bytes b pb,
  read_int-int_bytes c pc,
  read_int-int_bytes d pd,
  read_int-int_bytes e pe,
  refl,
)

-- `ColType` values as integers.
abbrev type_ints : List ColType → List ℤ
type_ints l = map (λ t. pos (type_number t)) l

type_ints-All : (l : List ColType) → All IsInt (type_ints l)
unfolding type_number
type_ints-All [] = tt
type_ints-All (type_int ∷ l) = (omega arith, type_ints-All l)
type_ints-All (type_float ∷ l) = (omega arith, type_ints-All l)
type_ints-All (type_string ∷ l) = (omega arith, type_ints-All l)

types_back : (l : List ColType) → map (λ z. number_type (loop_bound z)) (type_ints l) ≡ l
types_back [] = refl
types_back (t ∷ l) = rw (number_type-type_number t, types_back l) refl

length-type_ints : (l : List ColType) → length (type_ints l) ≡ length l
length-type_ints [] = refl
length-type_ints (t ∷ l) = ap suc (length-type_ints l)

-- The header without columns into which a file is read.
abbrev pub IsFresh : IxFileHdr → Type 0
IsFresh h = (h.col_types ≡ []) × (h.col_lens ≡ [])

read_columns :
    (n : ℕ) (zs : List ℤ) (rest : List ℕ)
    → length zs ≡ n
    → All IsInt zs
    → read_ints n (write_ints zs ++ rest) ≡ (zs, rest)
read_columns n zs rest h p =
    subst (λ m. read_ints m (write_ints zs ++ rest) ≡ (zs, rest)) h (read_ints-write_ints zs rest p)

four_append :
    {A : Type 0} (a b c d rest : List A)
    → (a ++ (b ++ (c ++ d))) ++ rest ≡ a ++ (b ++ (c ++ (d ++ rest)))
four_append a b c d rest =
    rw (append_assoc a (b ++ (c ++ d)) rest, append_assoc b (c ++ d) rest, append_assoc c d rest)
      refl

four_length :
    {A : Type 0} (a b c d : List A)
    → length (a ++ (b ++ (c ++ d))) ≡ length a + (length b + (length c + length d))
four_length a b c d =
    rw (length-append a (b ++ (c ++ d)), length-append b (c ++ d), length-append c d) refl

-- The integers before the columns, and those behind them.
abbrev first_ints : IxFileHdr → List ℤ
first_ints h = h.tot_len ∷ h.first_free_page_no ∷ h.num_pages ∷ h.root_page ∷ pos h.col_num ∷ []

abbrev last_ints : IxFileHdr → List ℤ
last_ints h = h.col_tot_len ∷ h.btree_order ∷ h.keys_size ∷ h.first_leaf ∷ h.last_leaf ∷ []

module _ (h : IxFileHdr) (v : IsHeader h) where
  -- The bytes of a header in their order.
  header_bytes-append :
      (rest : List ℕ)
      → header_bytes h ++ rest
        ≡ write_ints (first_ints h)
          ++ (write_ints (type_ints h.col_types)
              ++ (write_ints h.col_lens ++ (write_ints (last_ints h) ++ rest)))
  unfolding header_bytes
  header_bytes-append rest =
      rw (take_whole h.col_num h.col_types v.types, take_whole h.col_num h.col_lens v.lens)
        (four_append (write_ints (first_ints h)) (write_ints (type_ints h.col_types))
          (write_ints h.col_lens) (write_ints (last_ints h)) rest)

  length-header_bytes : length (header_bytes h) ≡ 40 + (4 * h.col_num + 4 * h.col_num)
  unfolding header_bytes
  length-header_bytes =
      rw (take_whole h.col_num h.col_types v.types, take_whole h.col_num h.col_lens v.lens)
        (omega (
          arith,
          four_length (write_ints (first_ints h)) (write_ints (type_ints h.col_types))
              (write_ints h.col_lens) (write_ints (last_ints h)),
          length-write_ints (first_ints h),
          length-write_ints (type_ints h.col_types),
          length-write_ints h.col_lens,
          length-write_ints (last_ints h),
          length-type_ints h.col_types,
          v.types,
          v.lens,
        ))

  read_header-bytes :
      (fresh : IxFileHdr) (rest : List ℕ)
      → IsFresh fresh
      → read_header fresh (header_bytes h ++ rest) ≡ h
  unfolding read_header
  read_header-bytes fresh rest (no_types, no_lens) =
      let tail = write_ints (last_ints h) ++ rest in
      let (e0, e1, e2, e3, e4, behind) =
        five_ints h.tot_len h.first_free_page_no h.num_pages h.root_page (pos h.col_num)
          (write_ints (type_ints h.col_types) ++ (write_ints h.col_lens ++ tail))
          (v.tot_len, (v.first_free_page_no, (v.num_pages, (v.root_page, (v.col_num, tt))))) in
      let (l0, l1, l2, l3, l4, last) =
        five_ints h.col_tot_len h.btree_order h.keys_size h.first_leaf h.last_leaf rest
          (v.col_tot_len, (v.btree_order, (v.keys_size, (v.first_leaf, (v.last_leaf, tt))))) in
      let types =
        read_columns h.col_num (type_ints h.col_types) (write_ints h.col_lens ++ tail)
          (length-type_ints h.col_types ∙ v.types) (type_ints-All h.col_types) in
      let lens = read_columns h.col_num h.col_lens tail v.lens v.each_len in
      rw
        (
          header_bytes-append rest,
          e0,
          e1,
          e2,
          e3,
          e4,
          behind,
          types,
          lens,
          l0,
          l1,
          l2,
          l3,
          l4,
          no_types,
          no_lens,
          types_back h.col_types,
        )
        refl

unless_short-ok :
    {A : Type 0} (n : ℕ) (h : IxFileHdr) (a : A) → pos n ≡ h.tot_len → unless_short n h a ≡ ok a
unless_short-ok n h a e =
    let same : int_eq (pos n) h.tot_len ≡ true = (int_eq_iff (pos n) h.tot_len).1 e in rw same refl

serialize-ok :
    (h : IxFileHdr) (dest : List ℕ)
    → IsHeader h
    → serialize h dest ≡ ok (header_bytes h ++ drop (length (header_bytes h)) dest)
unfolding serialize update_tot_len
serialize-ok h dest v =
    unless_short-ok (length (header_bytes h)) h
      (header_bytes h ++ drop (length (header_bytes h)) dest)
      (ap pos (length-header_bytes h v) ∙ sym v.has_tot_len)

deserialize-bytes :
    (h fresh : IxFileHdr) (rest : List ℕ)
    → IsHeader h
    → IsFresh fresh
    → deserialize fresh (header_bytes h ++ rest) ≡ ok h
unfolding deserialize update_tot_len
deserialize-bytes h fresh rest v f =
    ap (λ read. unless_short (20 + (4 * read.col_num + 4 * read.col_num) + 20) read read)
      (read_header-bytes h v fresh rest f)
    ∙ unless_short-ok (20 + (4 * h.col_num + 4 * h.col_num) + 20) h h
        (ap pos (omega arith) ∙ sym v.has_tot_len)

same_length :
    (h : IxFileHdr) (other : ℤ)
    → length (header_bytes (record h { tot_len = other })) ≡ length (header_bytes h)
unfolding header_bytes write_ints int_bytes
same_length h other = refl

serialize-failed :
    (h : IxFileHdr) (dest : List ℕ) (other : ℤ)
    → IsHeader h
    → int_eq h.tot_len other ≡ false
    → serialize (record h { tot_len = other }) dest ≡ raise assertion_failed
unfolding serialize update_tot_len
serialize-failed h dest other v differs =
    let as_before : pos (length (header_bytes (record h { tot_len = other }))) ≡ h.tot_len =
      ap pos (same_length h other ∙ length-header_bytes h v) ∙ sym v.has_tot_len in
    rw (as_before, differs) refl

-- The header of an index file whose fields are all an `int`, with as many columns as it says and
-- with the length that `update_tot_len` computes, is written over the start of a buffer and read back
-- from the buffer into a header without columns: neither assertion fails. With another length the
-- writing fails its assertion.
pub deserialize-serialize :
    (fresh h : IxFileHdr) (dest : List ℕ)
    → IsFresh fresh
    → IsHeader h
    → ((src : List ℕ) × (serialize h dest ≡ ok src) × (deserialize fresh src ≡ ok h))
      × ((other : ℤ)
          → int_eq h.tot_len other ≡ false
          → serialize (record h { tot_len = other }) dest ≡ raise assertion_failed)
deserialize-serialize fresh h dest f v = (
  (
    header_bytes h ++ drop (length (header_bytes h)) dest,
    serialize-ok h dest v,
    deserialize-bytes h fresh (drop (length (header_bytes h)) dest) v f,
  ),
  λ other differs. serialize-failed h dest other v differs,
)
