-- ===== src/Common/Effects.antt =====
-- Calls that can throw. A throw keeps the state changes that were made before it.
use mathlib.Core.Path.{◌≡◌, refl}

-- The exceptions of errors.h that the modelled code throws.
pub data Error : Type 0 where
  unix_error internal_error : Error
  record_not_found page_not_exist : Error
  file_exists file_not_found file_not_closed file_not_open : Error
  invalid_record_size invalid_col_length : Error
  assertion_failed : Error
  column_not_found ambiguous_column table_not_found index_not_found : Error
  incompatible_type string_overflow rmdb_error : Error
  -- `std::out_of_range`, and a null pointer that is read through.
  out_of_range null_pointer : Error

pub data Result {ℓ} (A : Type ℓ) : Type ℓ where
  ok : A → Result A
  raise : Error → Result A

abbrev pub M : Type 0 → Type 0 → Type 0
M S A = S → S × Result A

abbrev pub bind_pair : {S A B : Type 0} → S × Result A → (A → M S B) → S × Result B
bind_pair (s, ok a) f = f a s
bind_pair (s, raise e) f = (s, raise e)

infixl 5 ◌>>=◌ ◌>>◌
abbrev pub ◌>>=◌ : {S A B : Type 0} → M S A → (A → M S B) → M S B
◌>>=◌ m f s = bind_pair (m s) f

abbrev pub ◌>>◌ : {S B : Type 0} → M S (Unit {0}) → M S B → M S B
◌>>◌ m k s = bind_pair (m s) (λ _. k)

abbrev pub pure : {S A : Type 0} → A → M S A
pure a s = (s, ok a)

abbrev pub throw : {S A : Type 0} → Error → M S A
throw e s = (s, raise e)

abbrev pub get : {S : Type 0} → M S S
get s = (s, ok s)

abbrev pub modify : {S : Type 0} → (S → S) → M S (Unit {0})
modify f s = (f s, ok tt)

-- A call that returns made both of its parts return.
pub bind_pair-eq-ok :
    {S A B : Type 0} (m : S × Result A) (f : A → M S B) {s2 : S} {b : B}
    → bind_pair m f ≡ (s2, ok b)
    → (s1 : S) × (a : A) × (m ≡ (s1, ok a)) × (f a s1 ≡ (s2, ok b))
bind_pair-eq-ok (s, ok a) f h = (s, a, refl, h)
bind_pair-eq-ok (s, raise e) f h = cc
