-- ===== src/Common/Results.antt =====
-- `outcome::result<T>` of a function marked `noexcept`: a value, an error code, or the end of the
-- process where an exception would leave the function. The codes are those of
-- cppio/error_code.hpp and the one of `std::errc` that the program returns.
use mathlib.Core.Path.{◌≡◌, refl}
use mathlib.Core.Logic.{◌≢◌}

pub data NetworkErrorCode : Type 0 where
  success closed system_error bad_format unknown : NetworkErrorCode

pub data ErrorCode : Type 0 where
  network : NetworkErrorCode → ErrorCode
  invalid_argument : ErrorCode

-- `diverge` is the answer of a loop that has spent its fuel.
pub data Outcome {ℓ} (A : Type ℓ) : Type ℓ where
  value : A → Outcome A
  error : ErrorCode → Outcome A
  terminate : Outcome A
  diverge : Outcome A

infixl 5 ◌>>=◌
abbrev pub ◌>>=◌ {ℓ κ} : {A : Type ℓ} {B : Type κ} → Outcome A → (A → Outcome B) → Outcome B
value a >>= f = f a
error e >>= f = error e
terminate >>= f = terminate
diverge >>= f = diverge

pub >>=-eq-value {ℓ κ} :
    {A : Type ℓ} {B : Type κ} (m : Outcome A) (f : A → Outcome B) {b : B}
    → m >>= f ≡ value b
    → (a : A) × (m ≡ value a) × (f a ≡ value b)
>>=-eq-value (value a) f h = (a, refl, h)
>>=-eq-value (error e) f h = cc
>>=-eq-value terminate f h = cc
>>=-eq-value diverge f h = cc

-- A chain of steps ends if each step does.
pub >>=-ne-diverge {ℓ κ} :
    {A : Type ℓ} {B : Type κ} (m : Outcome A) (f : A → Outcome B)
    → m ≢ diverge
    → ((a : A) → m ≡ value a → f a ≢ diverge)
    → (m >>= f) ≢ diverge
>>=-ne-diverge (value a) f h k = k a refl
>>=-ne-diverge (error e) f h k = λ d. cc
>>=-ne-diverge terminate f h k = λ d. cc
>>=-ne-diverge diverge f h k = λ d. h refl

pub value-injective {ℓ} : {A : Type ℓ} {a b : A} → value a ≡ value b → a ≡ b
value-injective h = cc
