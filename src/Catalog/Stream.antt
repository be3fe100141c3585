-- ===== src/Catalog/Stream.antt =====
-- What the catalog uses of the streams of the standard library: `<<` and `>>` of texts and of numbers
-- that are not negative, on the bytes of the stream. A read skips blanks first, and fails where no
-- value of its kind stands.
use db2024_main.Common.{
  ℕ, List, [], All, Bool, Option, Text, arith, false, if◌then◌else◌, leb, ltb, lt→ltb, none, refl,
  some, suc, true, zero, ◌%◌, ◌&&◌, ◌*◌, ◌++◌, ◌+◌, ◌-◌, ◌/◌, ◌<◌, ◌==◌, ◌||◌, ◌∷◌, ◌≡◌, ◌≤◌,
  Bool-cases, ap, inl, inr, ◌∙◌,
}

abbrev pub Stream : Type 0
Stream = List ℕ

-- `isspace`
abbrev pub is_blank : ℕ → Bool
is_blank c = (c == 32) || (leb 9 c && leb c 13)

unfoldable pub skip_blanks : Stream → Stream
skip_blanks [] = []
skip_blanks (c ∷ s) = let rest = skip_blanks s in if is_blank c then rest else c ∷ s

unfoldable pub take_word : Stream → Text × Stream
take_word [] = ([], [])
take_word (c ∷ s) =
    let rest = take_word s in if is_blank c then ([], c ∷ s) else (c ∷ rest.0, rest.1)

abbrev word_or_none : Text × Stream → Option (Text × Stream)
word_or_none ([], s) = none
word_or_none (c ∷ t, s) = some (c ∷ t, s)

unfoldable pub read_text : Stream → Option (Text × Stream)
unfolding skip_blanks take_word
read_text s = word_or_none (take_word (skip_blanks s))

abbrev pub is_digit : ℕ → Bool
is_digit c = leb 48 c && leb c 57

-- The decimal digits of a number before other text, with `n` rounds at most.
unfoldable pub digits : ℕ → ℕ → Stream → Stream
digits zero n after = (48 + n % 10) ∷ after
digits (suc rounds) n after =
    let rest = digits rounds (n / 10) ((48 + n % 10) ∷ after) in
    if n / 10 == 0 then (48 + n % 10) ∷ after else rest

unfoldable pub write_number : ℕ → Stream → Stream
unfolding digits
write_number n after = digits n n after

unfoldable pub scan_digits : Stream → ℕ → ℕ × Stream
scan_digits [] n = (n, [])
scan_digits (c ∷ s) n =
    let rest = scan_digits s (n * 10 + (c - 48)) in if is_digit c then rest else (n, c ∷ s)

abbrev starts_number : Stream → Bool
starts_number [] = false
starts_number (c ∷ s) = is_digit c

-- A number that is not below `limit` does not fit its type, and fails.
unfoldable pub read_number : ℕ → Stream → Option (ℕ × Stream)
unfolding skip_blanks scan_digits
read_number limit s =
    let scanned = scan_digits (skip_blanks s) 0 in
    if starts_number (skip_blanks s) && ltb scanned.0 limit then some scanned else none

-- A text that is read back: not empty, and without blanks.
abbrev pub IsName : Text → Type 0
IsName [] = ⊥
IsName (c ∷ t) = All (λ b. is_blank b ≡ false) (c ∷ t)

-- A value ends at the end of the stream or at a blank.
abbrev pub Ends : Stream → Type 0
Ends [] = Unit
Ends (c ∷ s) = is_blank c ≡ true

take_word-append :
    (t : Text) (r : Stream) → All (λ b. is_blank b ≡ false) t → Ends r → take_word (t ++ r) ≡ (t, r)
unfolding take_word
take_word-append [] [] n e = refl
take_word-append [] (c ∷ r) n e = rw e refl
take_word-append (c ∷ t) r n e = rw (n.0, take_word-append t r n.1 e) refl

pub read_text-name : (t : Text) (r : Stream) → IsName t → Ends r → read_text (t ++ r) ≡ some (t, r)
unfolding read_text skip_blanks
read_text-name [] r n e = absurd n
read_text-name (c ∷ t) r n e = rw (n.0, take_word-append (c ∷ t) r n e) refl

digit_class : (n : ℕ) → (is_digit (48 + n % 10) ≡ true) × (is_blank (48 + n % 10) ≡ false)
digit_class n = (ground arith, ground arith)

-- The last digit behind those before it.
scan_last :
    (m n : ℕ) (after : Stream)
    → m ≡ n / 10
    → scan_digits ((48 + n % 10) ∷ after) m ≡ scan_digits after n
unfolding scan_digits
scan_last m n after h = rw ((digit_class n).0) (ap (λ k. scan_digits after k) (omega (arith, h)))

scan-digits :
    (rounds n : ℕ) (after : Stream)
    → n ≤ rounds
    → scan_digits (digits rounds n after) 0 ≡ scan_digits after n
unfolding scan_digits digits
scan-digits zero n after h = scan_last 0 n after (omega (arith, h))
scan-digits (suc rounds) n after h = elim (Bool-cases (n / 10 == 0)) [
  | inl last ↦ rw last (scan_last 0 n after (ground (arith, last)))
  | inr more ↦ rw more (
      scan-digits rounds (n / 10) ((48 + n % 10) ∷ after) (omega (arith, h))
      ∙ scan_last (n / 10) n after refl)
]

starts_number-digits :
    (rounds n : ℕ) (after : Stream)
    → (starts_number (digits rounds n after) ≡ true)
      × (skip_blanks (digits rounds n after) ≡ digits rounds n after)
unfolding digits skip_blanks
starts_number-digits zero n after = ((digit_class n).0, rw ((digit_class n).1) refl)
starts_number-digits (suc rounds) n after = elim (Bool-cases (n / 10 == 0)) [
  | inl last ↦ rw (last, (digit_class n).1) ((digit_class n).0, refl)
  | inr more ↦ rw more (starts_number-digits rounds (n / 10) ((48 + n % 10) ∷ after))
]

scan_digits-stops : (r : Stream) (n : ℕ) → Ends r → scan_digits r n ≡ (n, r)
unfolding scan_digits
scan_digits-stops [] n e = refl
scan_digits-stops (c ∷ r) n e = ground arith

pub read_number-write_number :
    (limit n : ℕ) (r : Stream)
    → n < limit
    → Ends r
    → read_number limit (write_number n r) ≡ some (n, r)
unfolding read_number write_number
read_number-write_number limit n r h e =
    let (first, same) = starts_number-digits n n r in
    rw (same, first, scan-digits n n r (omega arith), scan_digits-stops r n e, lt→ltb n limit h)
      refl
