-- ===== src/Common/Decimal.antt =====
-- `std::to_string` of an unsigned number and `std::stoul`, with the bounds of a 64-bit
-- `unsigned long`.
use cppio.Common.Searches.{Lacks}
use Prim.Native.Nat.{ℕ, zero, suc, ◌+◌, ◌-◌, ◌*◌, ◌/◌, ◌%◌, ◌^◌, ◌≤◌, ◌<◌}
use mathlib.Core.Bool.{Bool, true, false, ◌&&◌, ◌||◌}
use mathlib.Core.List.{[], ◌∷◌}
use mathlib.Core.Logic.{inl, inr, ◌≢◌}
use mathlib.Core.Option.{Option, none, some}
use mathlib.Core.Path.{◌≡◌, ◌∙◌, refl, ap}
use native.Mathlib.Omega.{arith}
use native.Mathlib.Nat.{pow-suc}
use cppio.Common.Tests.{ltb, leb, ◌==◌, if◌then◌else◌, Bool-cases}
use cppio.Common.Lists.{All}
use cppio.Common.Text.{Bytes, size_mod}

abbrev pub is_digit : ℕ → Bool
is_digit c = leb b'0' c && leb c b'9'

-- The digits of `n`, in front of `out`; the fuel bounds their number.
unfoldable pub digits : ℕ → ℕ → Bytes → Bytes
digits zero n out = out
digits (suc fuel) n out =
    let more = digits fuel (n / 10) ((b'0' + n % 10) ∷ out) in
    if ltb n 10 then (b'0' + n) ∷ out else more

-- A number of 64 bits has twenty digits at most.
unfoldable pub to_string : ℕ → Bytes
to_string n = digits 20 n []

unfoldable pub read_digits : ℕ → Bytes → ℕ
read_digits acc [] = acc
read_digits acc (c ∷ s) = if is_digit c then read_digits (acc * 10 + (c - b'0')) s else acc

abbrev is_space : ℕ → Bool
is_space c = c == b' ' || leb 9 c && leb c 13

unfoldable pub skip_space : Bytes → Bytes
skip_space [] = []
skip_space (c ∷ s) = if is_space c then skip_space s else c ∷ s

-- Digits, of which there has to be one, and which have to fit; a sign in front negates modulo 2^64.
unfoldable pub stoul_digits : Bool → Bytes → Option ℕ
stoul_digits negative [] = none
stoul_digits negative (c ∷ s) =
    if is_digit c
    then (let n = read_digits 0 (c ∷ s) in
        if leb size_mod n
        then none
        else if negative
        then some ((size_mod - n) % size_mod)
        else some n)
    else none

unfoldable pub stoul_sign : Bytes → Option ℕ
stoul_sign [] = none
stoul_sign (c ∷ s) =
    if c == b'-'
    then stoul_digits true s
    else if c == b'+'
    then stoul_digits false s
    else stoul_digits false (c ∷ s)

-- `std::stoul`; `none` stands for the exceptions `invalid_argument` and `out_of_range`.
unfoldable pub stoul : Bytes → Option ℕ
unfolding skip_space stoul_sign stoul_digits read_digits
stoul s = stoul_sign (skip_space s)

abbrev pub IsDigit : ℕ → Type 0
IsDigit c = (b'0' ≤ c) × (c ≤ b'9')

read_digits-digits :
    (fuel n : ℕ) (out : Bytes)
    → n < 10 ^ fuel
    → read_digits 0 (digits fuel n out) ≡ read_digits n out
unfolding digits read_digits
read_digits-digits zero n out fits = ground arith
read_digits-digits (suc fuel) n out fits = elim (Bool-cases (ltb n 10)) [
  | inl last ↦ rw last (ground arith)
  | inr more ↦
      rw more (read_digits-digits fuel (n / 10) _ (omega (arith, pow-suc 10 fuel)) ∙ ground arith)
]

digits-IsDigit : (fuel n : ℕ) (out : Bytes) → All IsDigit out → All IsDigit (digits fuel n out)
unfolding digits
digits-IsDigit zero n out h = h
digits-IsDigit (suc fuel) n out h = elim (Bool-cases (ltb n 10)) [
  | inl last ↦ rw last (ground arith, h)
  | inr more ↦ rw more (digits-IsDigit fuel (n / 10) _ (ground arith, h))
]

digits-ne-nil : (fuel n : ℕ) (out : Bytes) → out ≢ [] → digits fuel n out ≢ []
unfolding digits
digits-ne-nil zero n out h = h
digits-ne-nil (suc fuel) n out h =
    ground (arith, digits-ne-nil fuel (n / 10) ((b'0' + n % 10) ∷ out))

pub to_string-IsDigit : (n : ℕ) → All IsDigit (to_string n)
unfolding to_string
to_string-IsDigit n = digits-IsDigit 20 n [] tt

stoul_lem : (s : Bytes) → stoul s ≡ stoul_sign (skip_space s)
unfolding stoul
stoul_lem s = refl

skip_space-IsDigit : (c : ℕ) (s : Bytes) → IsDigit c → skip_space (c ∷ s) ≡ c ∷ s
unfolding skip_space
skip_space-IsDigit c s d = ground arith

stoul_sign-IsDigit :
    (c : ℕ) (s : Bytes) → IsDigit c → stoul_sign (c ∷ s) ≡ stoul_digits false (c ∷ s)
unfolding stoul_sign
stoul_sign-IsDigit c s d = ground arith

stoul_digits-IsDigit :
    (c : ℕ) (s : Bytes) (n : ℕ)
    → IsDigit c
    → read_digits 0 (c ∷ s) ≡ n
    → n < size_mod
    → stoul_digits false (c ∷ s) ≡ some n
unfolding stoul_digits
stoul_digits-IsDigit c s n d e fits = rw e (ground arith)

-- Digits that spell a 64-bit number are read as that number.
stoul-IsDigit :
    (s : Bytes) (n : ℕ)
    → All IsDigit s
    → s ≢ []
    → read_digits 0 s ≡ n
    → n < size_mod
    → stoul s ≡ some n
stoul-IsDigit [] n d ne e fits = absurd (ne refl)
stoul-IsDigit (c ∷ s) n (d, ds) ne e fits =
    stoul_lem (c ∷ s)
    ∙ ap stoul_sign (skip_space-IsDigit c s d)
    ∙ stoul_sign-IsDigit c s d
    ∙ stoul_digits-IsDigit c s n d e fits

digits_20-ne-nil : (n : ℕ) → digits 20 n [] ≢ []
unfolding digits
digits_20-ne-nil n = ground (arith, digits-ne-nil 19 (n / 10) ((b'0' + n % 10) ∷ []))

pub to_string-ne-nil : (n : ℕ) → to_string n ≢ []
unfolding to_string
to_string-ne-nil n = digits_20-ne-nil n

-- A 64-bit number is read back from its decimal print.
pub stoul-to_string : (n : ℕ) → n < size_mod → stoul (to_string n) ≡ some n
unfolding to_string
stoul-to_string n fits =
    stoul-IsDigit (digits 20 n []) n (digits-IsDigit 20 n [] tt) (digits_20-ne-nil n)
      (read_digits-digits 20 n [] (omega arith) ∙ unfold read_digits in refl) fits

All-IsDigit-Lacks : (c : ℕ) (s : Bytes) → c < b'0' → All IsDigit s → Lacks c s
All-IsDigit-Lacks c [] h d = tt
All-IsDigit-Lacks c (x ∷ s) h (d, ds) = ((λ e. omega arith), All-IsDigit-Lacks c s h ds)

-- A byte below the digits is not in a printed number.
pub to_string-Lacks : (c n : ℕ) → c < b'0' → Lacks c (to_string n)
to_string-Lacks c n h = All-IsDigit-Lacks c (to_string n) h (to_string-IsDigit n)
