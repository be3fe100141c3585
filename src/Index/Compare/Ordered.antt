-- ===== src/Index/Compare/Ordered.antt =====
-- `ix_compare` makes an order of the keys of an index, which fills the interface of the nodes.
use db2024_main.Common.{
  ℕ, ℤ, List, [], Bool, ap, arith, drop, false, get_or, if◌then◌else◌, int_eq, int_lt, negsuc, not,
  pos, read_int, refl, suc, true, zero, ◌&&◌, ◌||◌, ◌↔◌, ◌∙◌, ◌∷◌, ◌≡◌,
}
use db2024_main.Catalog.{ColType, type_float, type_int, type_string}
use db2024_main.Query.{Floats}
use db2024_main.Index.Order.{KeyOrder, lex, nat_order, one_class, order_of, via}
use db2024_main.Index.Compare.{compare_col, ix_compare, memcmp}

-- What the order of floats is on numbers; it fails for a NaN.
pub record FloatOrder {F D : Type 0} (fl : Floats F D) : Type 1 where
  pub IsNumber : F → Type 0
  pub lt_irrefl : (x : F) → fl.float_lt x x ≡ false
  pub lt_trans :
      (x y z : F) → fl.float_lt x y ≡ true → fl.float_lt y z ≡ true → fl.float_lt x z ≡ true
  pub lt_same :
      (x y z : F)
      → IsNumber x
      → IsNumber y
      → IsNumber z
      → fl.float_lt x y ≡ false
      → fl.float_lt y x ≡ false
      → (fl.float_lt x z ≡ fl.float_lt y z) × (fl.float_lt z x ≡ fl.float_lt z y)

-- Two values of which neither is less are the same.
module _ {K : Type 0} (less : K → K → Bool) where
  incomparable_iff :
      (a b : K)
      → ((not (less a b) && not (less b a)) ≡ true) ↔ ((less a b ≡ false) × (less b a ≡ false))
  incomparable_iff a b = ground arith

int_lt_irrefl : (a : ℤ) → int_lt a a ≡ false
unfolding int_lt
int_lt_irrefl (pos a) = ground arith
int_lt_irrefl (negsuc a) = ground arith

int_lt_trans : (a b c : ℤ) → int_lt a b ≡ true → int_lt b c ≡ true → int_lt a c ≡ true
unfolding int_lt
int_lt_trans (pos a) (pos b) (pos c) h k = ground arith
int_lt_trans (pos a) (pos b) (negsuc c) h k = ground arith
int_lt_trans (pos a) (negsuc b) c h k = ground arith
int_lt_trans (negsuc a) (pos b) (pos c) h k = refl
int_lt_trans (negsuc a) (pos b) (negsuc c) h k = ground arith
int_lt_trans (negsuc a) (negsuc b) (pos c) h k = refl
int_lt_trans (negsuc a) (negsuc b) (negsuc c) h k = ground arith

int_lt_total : (a b : ℤ) → int_lt a b ≡ false → int_lt b a ≡ false → a ≡ b
unfolding int_lt
int_lt_total (pos a) (pos b) h k = ap pos (ground arith)
int_lt_total (pos a) (negsuc b) h k = ground arith
int_lt_total (negsuc a) (pos b) h k = ground arith
int_lt_total (negsuc a) (negsuc b) h k = ap negsuc (ground arith)

int_same_less :
    (a b c : ℤ)
    → (not (int_lt a b) && not (int_lt b a)) ≡ true
    → (int_lt a c ≡ int_lt b c) × (int_lt c a ≡ int_lt c b)
int_same_less a b c h =
    let (x, y) = (incomparable_iff int_lt a b).0 h in
    let e = int_lt_total a b x y in (ap (λ z. int_lt z c) e, ap (λ z. int_lt c z) e)

int_order : KeyOrder ℤ
int_order = record {
  less = int_lt;
  same = λ a b. not (int_lt a b) && not (int_lt b a);
  less_irrefl = int_lt_irrefl;
  less_trans = int_lt_trans;
  same_iff = incomparable_iff int_lt;
  same_less = int_same_less;
}

memcmp_order : ℕ → KeyOrder (List ℕ)
memcmp_order zero = one_class (List ℕ)
memcmp_order (suc n) = lex (via (λ a. get_or a 0 0) nat_order) (via (drop 1) (memcmp_order n))

memcmp-less : (n : ℕ) (a b : List ℕ) → int_lt (memcmp n a b) (pos 0) ≡ (memcmp_order n).less a b
unfolding memcmp memcmp_order int_lt
memcmp-less zero a b = refl
memcmp-less (suc n) a b = ground (arith, memcmp-less n (drop 1 a) (drop 1 b))

memcmp-same : (n : ℕ) (a b : List ℕ) → int_eq (memcmp n a b) (pos 0) ≡ (memcmp_order n).same a b
unfolding memcmp memcmp_order int_eq
memcmp-same zero a b = refl
memcmp-same (suc n) a b = ground (arith, memcmp-same n (drop 1 a) (drop 1 b))

three_way-less :
    (p q : Bool) → int_lt (if p then negsuc 0 else if q then pos 1 else pos 0) (pos 0) ≡ p
unfolding int_lt
three_way-less true q = refl
three_way-less false true = refl
three_way-less false false = refl

three_way-same :
    (p q : Bool)
    → int_eq (if p then negsuc 0 else if q then pos 1 else pos 0) (pos 0) ≡ (not p && not q)
unfolding int_eq
three_way-same true q = refl
three_way-same false true = refl
three_way-same false false = refl

module _ {F D : Type 0} (fl : Floats F D) (fo : FloatOrder fl) where
  -- The floats of a key are numbers.
  abbrev pub IsColumn : ColType → List ℕ → Type 0
  IsColumn type_int a = Unit
  IsColumn type_float a = fo.IsNumber (fl.float_at a)
  IsColumn type_string a = Unit

  abbrev pub IsKey : List ColType → List ℕ → List ℕ → Type 0
  IsKey [] col_lens a = Unit
  IsKey (t ∷ col_types) [] a = Unit
  IsKey (t ∷ col_types) (l ∷ col_lens) a = IsColumn t a × IsKey col_types col_lens (drop l a)

  -- The keys of an index, as their bytes.
  abbrev pub Key : List ColType → List ℕ → Type 0
  Key col_types col_lens = (a : List ℕ) × IsKey col_types col_lens a

  abbrev pub float_less : (a b : (a : List ℕ) × IsColumn type_float a) → Bool
  float_less a b = fl.float_lt (fl.float_at a.0) (fl.float_at b.0)

  float_same_less :
      (a b c : (a : List ℕ) × IsColumn type_float a)
      → (not (float_less a b) && not (float_less b a)) ≡ true
      → (float_less a c ≡ float_less b c) × (float_less c a ≡ float_less c b)
  float_same_less a b c h =
      let (x, y) = (incomparable_iff float_less a b).0 h in
      fo.lt_same (fl.float_at a.0) (fl.float_at b.0) (fl.float_at c.0) a.1 b.1 c.1 x y

  pub col_order : (t : ColType) → ℕ → KeyOrder ((a : List ℕ) × IsColumn t a)
  col_order type_int l = via (λ k. read_int k.0) int_order
  col_order type_float l = record {
    less = float_less;
    same = λ a b. not (float_less a b) && not (float_less b a);
    less_irrefl = λ a. fo.lt_irrefl (fl.float_at a.0);
    less_trans = λ a b c. fo.lt_trans (fl.float_at a.0) (fl.float_at b.0) (fl.float_at c.0);
    same_iff = incomparable_iff float_less;
    same_less = float_same_less;
  }
  col_order type_string l = via (λ k. k.0) (memcmp_order l)

  pub keys_order :
      (col_types : List ColType) (col_lens : List ℕ) → KeyOrder (Key col_types col_lens)
  keys_order [] col_lens = one_class (Key [] col_lens)
  keys_order (t ∷ col_types) [] = one_class (Key (t ∷ col_types) [])
  keys_order (t ∷ col_types) (l ∷ col_lens) =
      lex (via {K = Key (t ∷ col_types) (l ∷ col_lens)} (λ k. (k.0, k.1.0)) (col_order t l))
        (via (λ k. (drop l k.0, k.1.1)) (keys_order col_types col_lens))

  compare_col-less :
      (t : ColType) (l : ℕ) (a b : (a : List ℕ) × IsColumn t a)
      → int_lt (compare_col fl a.0 b.0 t l) (pos 0) ≡ (col_order t l).less a b
  unfolding compare_col col_order int_order
  compare_col-less type_int l a b =
      three_way-less (int_lt (read_int a.0) (read_int b.0)) (int_lt (read_int b.0) (read_int a.0))
  compare_col-less type_float l a b = three_way-less (float_less a b) (float_less b a)
  compare_col-less type_string l a b = memcmp-less l a.0 b.0

  compare_col-same :
      (t : ColType) (l : ℕ) (a b : (a : List ℕ) × IsColumn t a)
      → int_eq (compare_col fl a.0 b.0 t l) (pos 0) ≡ (col_order t l).same a b
  unfolding compare_col col_order int_order
  compare_col-same type_int l a b =
      three_way-same (int_lt (read_int a.0) (read_int b.0)) (int_lt (read_int b.0) (read_int a.0))
  compare_col-same type_float l a b = three_way-same (float_less a b) (float_less b a)
  compare_col-same type_string l a b = memcmp-same l a.0 b.0

  -- A column decides unless its values are the same.
  first_differs-less :
      (res rest : ℤ)
      → int_lt (if int_eq res (pos 0) then rest else res) (pos 0)
        ≡ (int_lt res (pos 0) || (int_eq res (pos 0) && int_lt rest (pos 0)))
  unfolding int_eq int_lt
  first_differs-less (pos n) rest = ground arith
  first_differs-less (negsuc n) rest = refl

  first_differs-same :
      (res rest : ℤ)
      → int_eq (if int_eq res (pos 0) then rest else res) (pos 0)
        ≡ (int_eq res (pos 0) && int_eq rest (pos 0))
  first_differs-same res rest = ground arith

  pub ix_compare-less :
      (col_types : List ColType) (col_lens : List ℕ) (a b : Key col_types col_lens)
      → int_lt (ix_compare fl a.0 b.0 col_types col_lens) (pos 0)
        ≡ (keys_order col_types col_lens).less a b
  unfolding ix_compare keys_order int_lt
  ix_compare-less [] col_lens a b = refl
  ix_compare-less (t ∷ col_types) [] a b = refl
  ix_compare-less (t ∷ col_types) (l ∷ col_lens) a b =
      first_differs-less (compare_col fl a.0 b.0 t l) _
      ∙ rw
          (
            compare_col-less t l (a.0, a.1.0) (b.0, b.1.0),
            compare_col-same t l (a.0, a.1.0) (b.0, b.1.0),
            ix_compare-less col_types col_lens (drop l a.0, a.1.1) (drop l b.0, b.1.1),
          )
          refl

  pub ix_compare-same :
      (col_types : List ColType) (col_lens : List ℕ) (a b : Key col_types col_lens)
      → int_eq (ix_compare fl a.0 b.0 col_types col_lens) (pos 0)
        ≡ (keys_order col_types col_lens).same a b
  unfolding ix_compare keys_order int_eq
  ix_compare-same [] col_lens a b = refl
  ix_compare-same (t ∷ col_types) [] a b = refl
  ix_compare-same (t ∷ col_types) (l ∷ col_lens) a b =
      first_differs-same (compare_col fl a.0 b.0 t l) _
      ∙ rw
          (
            compare_col-same t l (a.0, a.1.0) (b.0, b.1.0),
            ix_compare-same col_types col_lens (drop l a.0, a.1.1) (drop l b.0, b.1.1),
          )
          refl

  -- The order that the index makes of its keys with `ix_compare`.
  abbrev pub ix_order :
      (col_types : List ColType) (col_lens : List ℕ) → KeyOrder (Key col_types col_lens)
  ix_order col_types col_lens =
      order_of (λ a b. ix_compare fl a.0 b.0 col_types col_lens) (keys_order col_types col_lens)
        (ix_compare-less col_types col_lens) (ix_compare-same col_types col_lens)
