-- ===== src/Network/ErrorCategory.antt =====
-- cppio/error_code.hpp: the category of the program's error codes. A code is an int, which may be the number of
-- no enumerator.
use cppio.Common.{
  ℕ, zero, suc, ◌≡◌, refl, Option, none, some, NetworkErrorCode, success, closed, system_error,
  bad_format, unknown, inl, ◌⊎◌, inr,
}
use cppio.Common.Text.{Bytes, codes}

-- An int.
pub data ℤ : Type 0 where
  pos negsuc : (n : ℕ) → ℤ

-- `static_cast<int>`
unfoldable pub to_int : NetworkErrorCode → ℤ
to_int success = pos 0
to_int closed = pos 1
to_int system_error = pos 2
to_int bad_format = pos 3
to_int unknown = pos 4

-- `static_cast<network_error_code>`; `none` is a value that is no enumerator.
unfoldable pub of_int : ℤ → Option NetworkErrorCode
of_int (pos zero) = some success
of_int (pos (suc zero)) = some closed
of_int (pos (suc (suc zero))) = some system_error
of_int (pos (suc (suc (suc zero)))) = some bad_format
of_int (pos (suc (suc (suc (suc zero))))) = some unknown
of_int _ = none

unfoldable pub message : ℤ → Bytes
message c = elim (of_int c) [
  | some success ↦ codes "operation successful"
  | some closed ↦ codes "socket is closed"
  | some bad_format ↦ codes "bad format provided"
  | some system_error ↦ codes "unknown"
  | some unknown ↦ codes "unknown"
  | none ↦ codes "unknown"
]

-- `std::error_condition`: a value of `std::errc`, or one of this category.
pub data ErrorCondition : Type 0 where
  broken_pipe invalid_argument : ErrorCondition
  own : (c : ℤ) → ErrorCondition

unfoldable pub default_error_condition : ℤ → ErrorCondition
default_error_condition c = elim (of_int c) [
  | some closed ↦ broken_pipe
  | some bad_format ↦ invalid_argument
  | some success ↦ own c
  | some system_error ↦ own c
  | some unknown ↦ own c
  | none ↦ own c
]

-- `std::error_code` of this category.
pub record Code : Type 0 where
  pub value : ℤ

unfoldable pub make_error_code : NetworkErrorCode → Code
make_error_code e = record { value = to_int e }

condition_cases :
    (c : ℤ)
    → ((c ≡ pos 1) × (default_error_condition c ≡ broken_pipe))
      ⊎ (((c ≡ pos 3) × (default_error_condition c ≡ invalid_argument))
          ⊎ (default_error_condition c ≡ own c))
unfolding default_error_condition of_int
condition_cases (negsuc n) = inr (inr refl)
condition_cases (pos zero) = inr (inr refl)
condition_cases (pos (suc zero)) = inl (refl, refl)
condition_cases (pos (suc (suc zero))) = inr (inr refl)
condition_cases (pos (suc (suc (suc zero)))) = inr (inl (refl, refl))
condition_cases (pos (suc (suc (suc (suc zero))))) = inr (inr refl)
condition_cases (pos (suc (suc (suc (suc (suc n)))))) = inr (inr refl)

-- No two codes have the same condition, whether they are numbers of enumerators or not.
default_error_condition-injective :
    (c d : ℤ) → default_error_condition c ≡ default_error_condition d → c ≡ d
default_error_condition-injective c d h = elim (condition_cases c) [
  | inl x ↦ elim (condition_cases d) [
    | inl y ↦ cc (x.0, y.0)
    | inr (inl y) ↦ cc (x.1, y.1, h)
    | inr (inr y) ↦ cc (x.1, y, h)
  ]
  | inr (inl x) ↦ elim (condition_cases d) [
    | inl y ↦ cc (x.1, y.1, h)
    | inr (inl y) ↦ cc (x.0, y.0)
    | inr (inr y) ↦ cc (x.1, y, h)
  ]
  | inr (inr x) ↦ elim (condition_cases d) [
    | inl y ↦ cc (x, y.1, h)
    | inr (inl y) ↦ cc (x, y.1, h)
    | inr (inr y) ↦ cc (x, y, h)
  ]
]
