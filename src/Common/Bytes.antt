-- ===== src/Common/Bytes.antt =====
-- Text as the bytes of a `std::string`, the C comparisons of text, and a 32-bit integer in memory.
use Prim.Native.Nat.{ℕ, zero, suc, ◌+◌, ◌-◌, ◌*◌, ◌/◌, ◌%◌, ◌<◌}
use mathlib.Core.Path.{◌≡◌}
use mathlib.Core.Logic.{◌↔◌}
use mathlib.Core.Bool.{Bool, true, false, ◌&&◌}
use mathlib.Core.List.{List, [], ◌∷◌}
use native.Mathlib.Omega.{arith}
use db2024_main.Common.Tests.{◌==◌, ltb, if◌then◌else◌}
use db2024_main.Common.Lists.{get_or}
use db2024_main.Common.Int.{ℤ, pos, negsuc}
use db2024_main.Common.Assoc.{Eq}

abbrev pub Text : Type 0
Text = List ℕ

unfoldable pub str_eq : Text → Text → Bool
str_eq [] [] = true
str_eq [] (y ∷ ys) = false
str_eq (x ∷ xs) [] = false
str_eq (x ∷ xs) (y ∷ ys) = (x == y) && str_eq xs ys

pub str_eq_iff : (a b : Text) → (str_eq a b ≡ true) ↔ (a ≡ b)
unfolding str_eq
str_eq_iff [] [] = ground arith
str_eq_iff [] (y ∷ ys) = ground arith
str_eq_iff (x ∷ xs) [] = ground arith
str_eq_iff (x ∷ xs) (y ∷ ys) = ground (arith, str_eq_iff xs ys)

instance abbrev pub text_eq : Eq Text
text_eq = record { beq = str_eq; beq_iff = str_eq_iff }

-- `(greater) - (less)`
abbrev pub sign : Bool → Bool → ℤ
sign true true = pos 0
sign true false = pos 1
sign false true = negsuc 0
sign false false = pos 0

-- The sign of `a.compare(b)`.
unfoldable pub str_compare : Text → Text → ℤ
str_compare [] [] = pos 0
str_compare [] (y ∷ ys) = negsuc 0
str_compare (x ∷ xs) [] = pos 1
str_compare (x ∷ xs) (y ∷ ys) = if x == y then str_compare xs ys else sign (ltb y x) (ltb x y)

-- The sign of `strncmp`, up to the first NUL; a byte past the end of a buffer counts as one.
unfoldable pub strncmp : List ℕ → List ℕ → ℕ → ℤ
strncmp a b zero = pos 0
strncmp [] [] (suc n) = pos 0
strncmp [] (y ∷ ys) (suc n) = sign false (ltb 0 y)
strncmp (x ∷ xs) [] (suc n) = sign (ltb 0 x) false
strncmp (x ∷ xs) (y ∷ ys) (suc n) =
    let rest = strncmp xs ys n in
    if x == y then if x == 0 then pos 0 else rest else sign (ltb y x) (ltb x y)

-- The bytes before the first NUL: `s.resize(strlen(s.c_str()))`.
unfoldable pub until_nul : List ℕ → Text
until_nul [] = []
until_nul (x ∷ xs) = if x == 0 then [] else x ∷ until_nul xs

-- A 32-bit integer as its bit pattern, and back.
abbrev pub word : ℤ → ℕ
word (pos n) = n % 4294967296
word (negsuc n) = 4294967295 - n % 4294967296

abbrev pub of_word : ℕ → ℤ
of_word w = if ltb w 2147483648 then pos w else negsuc (4294967295 - w)

-- `*(int *)p`, the lowest byte first.
unfoldable pub int_bytes : ℤ → List ℕ
int_bytes z =
    let w = word z in (w % 256) ∷ (w / 256 % 256) ∷ (w / 65536 % 256) ∷ (w / 16777216 % 256) ∷ []

unfoldable pub read_int : List ℕ → ℤ
read_int b =
    of_word (get_or b 0 0 + 256 * get_or b 1 0 + 65536 * get_or b 2 0 + 16777216 * get_or b 3 0)

-- The range of an `int`.
abbrev pub IsInt : ℤ → Type 0
IsInt (pos n) = n < 2147483648
IsInt (negsuc n) = n < 2147483648

unfoldable pub int_lt : ℤ → ℤ → Bool
int_lt (pos a) (pos b) = ltb a b
int_lt (pos a) (negsuc b) = false
int_lt (negsuc a) (pos b) = true
int_lt (negsuc a) (negsuc b) = ltb b a

pub read_int-int_bytes : (z : ℤ) → IsInt z → read_int (int_bytes z) ≡ z
unfolding read_int int_bytes
read_int-int_bytes (pos n) h = ground arith
read_int-int_bytes (negsuc n) h = ground arith
