-- ===== src/Common/Results.antt =====
-- Calls that can throw and change no state that the model follows.
use mathlib.Core.Path.{◌≡◌, refl}
use mathlib.Core.Bool.{Bool, true, false}
use mathlib.Core.List.{List, [], ◌∷◌}
use mathlib.Core.Option.{Option, none, some}
use db2024_main.Common.Effects.{Error, Result, ok, raise, null_pointer}

-- A read through a pointer.
abbrev pub deref {ℓ} : {A : Type ℓ} → Option A → Result A
deref none = raise null_pointer
deref (some a) = ok a

-- `if (!holds) throw e`
abbrev pub guard : Bool → Error → Result (Unit {0})
guard false e = raise e
guard true e = ok tt

infixl 5 ◌>>=◌ ◌>>◌
-- A throw leaves the calls behind it out.
abbrev pub ◌>>=◌ {ℓ κ} : {A : Type ℓ} {B : Type κ} → Result A → (A → Result B) → Result B
raise e >>= next = raise e
ok a >>= next = next a

abbrev pub ◌>>◌ {ℓ} : {B : Type ℓ} → Result (Unit {0}) → Result B → Result B
check >> next = check >>= λ done. next

-- A loop that changes each element in place.
unfoldable pub map_result {ℓ κ} :
    {A : Type ℓ} {B : Type κ} → (A → Result B) → List A → Result (List B)
map_result f [] = ok []
map_result f (x ∷ xs) = do y ← f x; ys ← map_result f xs; ok (y ∷ ys)

-- A call that returns made both of its parts return.
pub >>=-eq-ok {ℓ κ} :
    {A : Type ℓ} {B : Type κ} {r : B} (first : Result A) (next : A → Result B)
    → (first >>= next) ≡ ok r
    → (a : A) × (first ≡ ok a) × (next a ≡ ok r)
>>=-eq-ok (raise e) next returns = cc
>>=-eq-ok (ok a) next returns = (a, refl, returns)
