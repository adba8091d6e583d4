-- ===== src/Network/Ip/Printed.antt =====
-- ip.cpp: the characters of the texts that `to_string` writes, and what `back` and `c_string` make of them.
use cppio.Common.{
  ℕ, zero, suc, ◌+◌, ◌/◌, ◌%◌, ◌<◌, ◌≤◌, ◌≡◌, ◌≢◌, refl, arith, Bool, Bool-cases, inl, inr, All,
  All-append, [], ◌∷◌, ◌++◌, List, ltb, leb, ◌==◌, get_or, ◌&&◌, if◌then◌else◌, true, false,
}
use cppio.Common.Text.{Bytes}
use cppio.Common.Decimal
use cppio.Common.Decimal.{IsDigit, to_string-IsDigit}
use cppio.Common.Searches.{Lacks}
use cppio.Network.Ip.{c_string, back}
use cppio.Network.Ip.V4
use cppio.Network.Ip.V4.{V4}
use cppio.Network.Ip.V6
use cppio.Network.Ip.V6.{V6}

pub c_string-Lacks : (s : Bytes) → Lacks 0 s → c_string s ≡ s
unfolding c_string
c_string-Lacks [] h = refl
c_string-Lacks (zero ∷ s) h = absurd (h.0 refl)
c_string-Lacks (suc c ∷ s) h = rw (c_string-Lacks s h.1) refl

pub back-All : (P : ℕ → Type 0) (x : ℕ) (s : Bytes) → All P (x ∷ s) → P (back (x ∷ s))
unfolding back
back-All P x [] h = h.0
back-All P x (y ∷ s) h = back-All P y s h.1

pub back-append : (xs : Bytes) (y : ℕ) (ys : Bytes) → back (xs ++ y ∷ ys) ≡ back (y ∷ ys)
unfolding back
back-append [] y ys = refl
back-append (x ∷ []) y ys = refl
back-append (x ∷ z ∷ xs) y ys = back-append (z ∷ xs) y ys

-- A digit or a dot; `/` lies between the two.
abbrev pub IsDotted : ℕ → Type 0
IsDotted c = (b'.' ≤ c) × (c ≤ b'9')

-- Neither NUL nor `[`.
abbrev pub IsPlain : ℕ → Type 0
IsPlain c = (c ≢ 0) × (c ≢ b'[')

pub All-imp : (P Q : ℕ → Type 0) (s : Bytes) → ((c : ℕ) → P c → Q c) → All P s → All Q s
All-imp P Q [] f h = tt
All-imp P Q (c ∷ s) f h = (f c h.0, All-imp P Q s f h.1)

decimal-IsDotted : (n : ℕ) → All IsDotted (Decimal.to_string n)
decimal-IsDotted n =
    All-imp IsDigit IsDotted (Decimal.to_string n) (λ c d. (omega (arith, d), omega (arith, d)))
      (to_string-IsDigit n)

pub to_string-IsDotted : (ip : V4) → All IsDotted (V4.to_string ip)
unfolding V4.to_string
to_string-IsDotted ip =
    let dot : IsDotted b'.' = (omega arith, omega arith) in
    All-append IsDotted _ _ (decimal-IsDotted _) (
      dot,
      All-append IsDotted _ _ (decimal-IsDotted _)
          (dot, All-append IsDotted _ _ (decimal-IsDotted _) (dot, decimal-IsDotted _)),
    )

hex_digit-IsPlain : (n : ℕ) → n < 16 → IsPlain (V6.hex_digit n)
unfolding V6.hex_digit
hex_digit-IsPlain n h = (ground (arith, h), ground (arith, h))

hex_digits-IsPlain :
    (fuel n : ℕ) (out : Bytes) → All IsPlain out → All IsPlain (V6.hex_digits fuel n out)
unfolding V6.hex_digits
hex_digits-IsPlain zero n out h = h
hex_digits-IsPlain (suc fuel) n out h = elim (Bool-cases (ltb n 16)) [
  | inl last ↦ rw last (hex_digit-IsPlain n (ground arith), h)
  | inr more ↦
      rw more (hex_digits-IsPlain fuel (n / 16) _ (hex_digit-IsPlain (n % 16) (omega arith), h))
]

colon-IsPlain : IsPlain b':'
colon-IsPlain = ((λ e. omega (arith, e)), (λ e. omega (arith, e)))

colon_if : (b : Bool) (s : Bytes) → All IsPlain s → All IsPlain (if b then b':' ∷ s else s)
colon_if true s h = (colon-IsPlain, h)
colon_if false s h = h

write-IsPlain :
    (fuel : ℕ) (word : List ℕ) (best : ℕ × ℕ) (i : ℕ) → All IsPlain (V6.write fuel word best i)
unfolding V6.write
write-IsPlain zero word best i = tt
write-IsPlain (suc fuel) word (n, z) i = elim (Bool-cases (leb 8 i)) [
  | inl past ↦ rw past tt
  | inr within ↦ rw within (elim (Bool-cases (i == z && ltb 1 n)) [
    | inl run ↦ rw run (colon-IsPlain, (colon-IsPlain, write-IsPlain fuel word (n, z) (i + n)))
    | inr single ↦ rw single (
        hex_digits-IsPlain 4 (get_or word i 0) _
          (colon_if _ _ (write-IsPlain fuel word (n, z) (suc i))))
  ])
]

pub body-IsPlain : (ip : V6) → All IsPlain (V6.body ip)
unfolding V6.body
body-IsPlain ip = write-IsPlain 8 ip.word (V6.longest 8 0 ip.word (0, 0)) 0
