-- ===== src/Index/Order.antt =====
-- The order of the keys that the nodes of an index work with, as the tests of the result of
-- `ix_compare` (index/ix_index_handle.h) that they make. Keys that differ as bytes may be the same to
-- it, as the floats 0.0 and -0.0.
use db2024_main.Common.{
  ℕ, Bool, arith, false, ltb, true, ◌==◌, ◌↔◌, ◌≡◌, int_eq, int_lt, pos, sym, ℤ, ◌&&◌, ◌||◌, ◌∙◌,
  refl,
}

pub record KeyOrder (K : Type 0) : Type 0 where
  -- `ix_compare(a, b) < 0` and `ix_compare(a, b) == 0`.
  pub less : K → K → Bool
  pub same : K → K → Bool
  pub less_irrefl : (a : K) → less a a ≡ false
  pub less_trans : (a b c : K) → less a b ≡ true → less b c ≡ true → less a c ≡ true
  pub same_iff : (a b : K) → (same a b ≡ true) ↔ ((less a b ≡ false) × (less b a ≡ false))
  pub same_less : (a b c : K) → same a b ≡ true → (less a c ≡ less b c) × (less c a ≡ less c b)

pub ltb_irrefl : (a : ℕ) → ltb a a ≡ false
ltb_irrefl a = ground arith

pub ltb_trans : (a b c : ℕ) → ltb a b ≡ true → ltb b c ≡ true → ltb a c ≡ true
ltb_trans a b c h k = ground arith

pub ==_iff_ltb : (a b : ℕ) → ((a == b) ≡ true) ↔ ((ltb a b ≡ false) × (ltb b a ≡ false))
==_iff_ltb a b = ground arith

pub ==_ltb : (a b c : ℕ) → (a == b) ≡ true → (ltb a c ≡ ltb b c) × (ltb c a ≡ ltb c b)
==_ltb a b c h = ground arith

-- The order of the natural numbers.
abbrev pub nat_order : KeyOrder ℕ
nat_order = record {
  less = ltb;
  same = λ a b. a == b;
  less_irrefl = ltb_irrefl;
  less_trans = ltb_trans;
  same_iff = ==_iff_ltb;
  same_less = ==_ltb;
}

module _ {K : Type 0} (o : KeyOrder K) where
  pub same_trans : (a b c : K) → o.same a b ≡ true → o.same b c ≡ true → o.same a c ≡ true
  same_trans a b c h k = ground (arith, o.same_less a b c, o.same_iff b c, o.same_iff a c, h, k)

  pub same_sym : (a b : K) → o.same a b ≡ true → o.same b a ≡ true
  same_sym a b h = ground (arith, o.same_iff a b, o.same_iff b a)

-- The order of the images of a function.
abbrev pub via : {K L : Type 0} → (K → L) → KeyOrder L → KeyOrder K
via f o = record {
  less = λ a b. o.less (f a) (f b);
  same = λ a b. o.same (f a) (f b);
  less_irrefl = λ a. o.less_irrefl (f a);
  less_trans = λ a b c. o.less_trans (f a) (f b) (f c);
  same_iff = λ a b. o.same_iff (f a) (f b);
  same_less = λ a b c. o.same_less (f a) (f b) (f c);
}

module _ {K : Type 0} (first second : KeyOrder K) where
  pub lex_irrefl : (a : K) → (first.less a a || (first.same a a && second.less a a)) ≡ false
  lex_irrefl a = rw (first.less_irrefl a, second.less_irrefl a) (ground arith)

  pub lex_trans :
      (a b c : K)
      → (first.less a b || (first.same a b && second.less a b)) ≡ true
      → (first.less b c || (first.same b c && second.less b c)) ≡ true
      → (first.less a c || (first.same a c && second.less a c)) ≡ true
  lex_trans a b c h k = ground (
    arith,
    first.less_trans a b c,
    second.less_trans a b c,
    first.same_less a b c,
    first.same_less b c a,
    first.same_iff a b,
    first.same_iff b c,
    first.same_iff a c,
    first.same_less b a c,
    h,
    k,
  )

  pub lex_same_iff :
      (a b : K)
      → ((first.same a b && second.same a b) ≡ true) ↔ (
          ((first.less a b || (first.same a b && second.less a b)) ≡ false)
          × ((first.less b a || (first.same b a && second.less b a)) ≡ false))
  lex_same_iff a b = ground (arith, first.same_iff a b, first.same_iff b a, second.same_iff a b)

  pub lex_same_less :
      (a b c : K)
      → (first.same a b && second.same a b) ≡ true
      → ((first.less a c || (first.same a c && second.less a c))
          ≡ (first.less b c || (first.same b c && second.less b c)))
        × ((first.less c a || (first.same c a && second.less c a))
            ≡ (first.less c b || (first.same c b && second.less c b)))
  lex_same_less a b c h = ground (
    arith,
    first.same_less a b c,
    second.same_less a b c,
    first.same_iff a c,
    first.same_iff b c,
    first.same_iff c a,
    first.same_iff c b,
    h,
  )

  -- By the first order, and by the second for what is the same to the first.
  abbrev pub lex : KeyOrder K
  lex = record {
    less = λ a b. first.less a b || (first.same a b && second.less a b);
    same = λ a b. first.same a b && second.same a b;
    less_irrefl = lex_irrefl;
    less_trans = lex_trans;
    same_iff = lex_same_iff;
    same_less = lex_same_less;
  }

-- Everything is the same.
abbrev pub one_class : (K : Type 0) → KeyOrder K
one_class K = record {
  less = λ a b. false;
  same = λ a b. true;
  less_irrefl = λ a. refl;
  less_trans = λ a b c h k. h;
  same_iff = λ a b. (λ h. (refl, refl), λ h. refl);
  same_less = λ a b c h. (refl, refl);
}

-- The order that a comparison makes whose results agree with another order.
module _ {K : Type 0} (cmp : K → K → ℤ) (o : KeyOrder K)
    (l : (a b : K) → int_lt (cmp a b) (pos 0) ≡ o.less a b)
    (e : (a b : K) → int_eq (cmp a b) (pos 0) ≡ o.same a b) where
  pub cmp_same_iff :
      (a b : K)
      → (int_eq (cmp a b) (pos 0) ≡ true)
        ↔ ((int_lt (cmp a b) (pos 0) ≡ false) × (int_lt (cmp b a) (pos 0) ≡ false))
  cmp_same_iff a b = ground (arith, l a b, l b a, e a b, o.same_iff a b)

  abbrev pub order_of : KeyOrder K
  order_of = record {
    less = λ a b. int_lt (cmp a b) (pos 0);
    same = λ a b. int_eq (cmp a b) (pos 0);
    less_irrefl = λ a. l a a ∙ o.less_irrefl a;
    less_trans = λ a b c h k. l a c ∙ o.less_trans a b c (sym (l a b) ∙ h) (sym (l b c) ∙ k);
    same_iff = cmp_same_iff;
    same_less = λ a b c h.
        let (x, y) = o.same_less a b c (sym (e a b) ∙ h) in
        (l a c ∙ x ∙ sym (l b c), l c a ∙ y ∙ sym (l c b));
  }
