-- ===== src/Http/Encoding/RoundTrip.antt =====
-- encoding.inl: decoding undoes encoding, the alphabet of an encoded text, and the bounds on sizes.
use cppio.Common.{
  ℕ, zero, suc, ◌+◌, ◌*◌, ◌/◌, ◌%◌, ◌<◌, ◌≤◌, ◌≡◌, refl, ap, Bool, true, false, [], ◌∷◌, ◌++◌, ◌==◌,
  ==_iff, arith, length, length-append, All, All-append, Bool-cases, ◌⊎◌, inl, inr, append_assoc,
  if◌then◌else◌,
}
use cppio.Common.Text.{Bytes}
use cppio.Http.Encoding.{
  to_hex, hex_pair, encode_char, encode_loop, url_encode, url_decode, isalnum, is_unreserved,
}

-- Whether a test passes on every number under a bound, and what that says of one of them.
table : (ℕ → Bool) → ℕ → Bool
table test zero = true
table test (suc k) = if test k then table test k else false

table-lt : (test : ℕ → Bool) (k c : ℕ) → table test k ≡ true → c < k → test c ≡ true
unfolding table
table-lt test zero c passed below = absurd (omega arith)
table-lt test (suc k) c passed below = ground (arith, table-lt test k c)

hex_table : table (λ c. hex_pair (to_hex (c / 16)) (to_hex (c % 16)) == c) 256 ≡ true
unfolding table hex_pair to_hex
hex_table = refl

hex_pair-to_hex : (c : ℕ) → c < 256 → hex_pair (to_hex (c / 16)) (to_hex (c % 16)) ≡ c
hex_pair-to_hex c h = (==_iff _ c).0 (table-lt _ 256 c hex_table h)

-- A byte.
abbrev pub IsByte : ℕ → Type 0
IsByte c = c < 256

-- A byte other than `%` and `+` is copied.
url_decode_plain :
    (c : ℕ) (rest : Bytes)
    → (c == b'%') ≡ false
    → (c == b'+') ≡ false
    → url_decode (c ∷ rest) ≡ c ∷ url_decode rest
unfolding url_decode
url_decode_plain c [] h k = ground arith
url_decode_plain c (x ∷ []) h k = ground arith
url_decode_plain c (x ∷ y ∷ rest) h k = ground arith

unreserved_plain : (c : ℕ) → is_unreserved c ≡ true → ((c == b'%') ≡ false) × ((c == b'+') ≡ false)
unfolding isalnum
unreserved_plain c h = ground arith

url_decode_escape :
    (one two : ℕ) (rest : Bytes)
    → url_decode (b'%' ∷ one ∷ two ∷ rest) ≡ hex_pair one two ∷ url_decode rest
unfolding url_decode
url_decode_escape one two rest = refl

url_decode-encode_char :
    (c : ℕ) (rest : Bytes) → IsByte c → url_decode (encode_char c ++ rest) ≡ c ∷ url_decode rest
unfolding encode_char
url_decode-encode_char c rest h = elim (Bool-cases (is_unreserved c)) [
  | inl plain ↦
      rw plain (url_decode_plain c rest (unreserved_plain c plain).0 (unreserved_plain c plain).1)
  | inr escaped ↦ rw (escaped, url_decode_escape, hex_pair-to_hex c h)
]

url_decode-encode_loop :
    (s rest : Bytes) → All IsByte s → url_decode (encode_loop s ++ rest) ≡ s ++ url_decode rest
unfolding encode_loop
url_decode-encode_loop [] rest h = refl
url_decode-encode_loop (c ∷ s) rest h =
    rw (append_assoc, url_decode-encode_char c (encode_loop s ++ rest) h.0)
      (ap (◌∷◌ c) (url_decode-encode_loop s rest h.1))

-- Decoding an encoded text gives the text back, for every text of bytes, with the NUL byte behind it
-- that the encoder appends.
pub url_decode-url_encode : (s : Bytes) → All IsByte s → url_decode (url_encode s) ≡ s ++ 0 ∷ []
unfolding url_encode url_decode
url_decode-url_encode s h = url_decode-encode_loop s (0 ∷ []) h

-- What may stand in an encoded text.
abbrev pub IsUrlByte : ℕ → Type 0
IsUrlByte c = (is_unreserved c ≡ true) ⊎ (c ≡ b'%')

to_hex-table : table (λ c. is_unreserved (to_hex c)) 16 ≡ true
unfolding table to_hex isalnum
to_hex-table = refl

to_hex-unreserved : (c : ℕ) → is_unreserved (to_hex (c % 16)) ≡ true
to_hex-unreserved c = table-lt _ 16 (c % 16) to_hex-table (omega arith)

to_hex-mod : (c : ℕ) → to_hex (c % 16) ≡ to_hex c
unfolding to_hex
to_hex-mod c = rw (let e : c % 16 % 16 ≡ c % 16 = omega arith in e)

escaped-IsUrlByte : (c : ℕ) → All IsUrlByte (b'%' ∷ to_hex (c / 16) ∷ to_hex (c % 16) ∷ [])
escaped-IsUrlByte c = (
  inr refl,
  (inl (rw (← to_hex-mod) (to_hex-unreserved (c / 16))), (inl (to_hex-unreserved c), tt)),
)

encode_char-IsUrlByte : (c : ℕ) → All IsUrlByte (encode_char c)
unfolding encode_char
encode_char-IsUrlByte c = elim (Bool-cases (is_unreserved c)) [
  | inl plain ↦ rw plain (inl plain, tt)
  | inr escaped ↦ rw escaped (escaped-IsUrlByte c)
]

encode_loop-IsUrlByte : (s : Bytes) → All IsUrlByte (encode_loop s)
unfolding encode_loop
encode_loop-IsUrlByte [] = tt
encode_loop-IsUrlByte (c ∷ s) =
    All-append IsUrlByte (encode_char c) (encode_loop s) (encode_char-IsUrlByte c)
      (encode_loop-IsUrlByte s)

length-encode_char : (c : ℕ) → length (encode_char c) ≤ 3
unfolding encode_char
length-encode_char c = ground arith

length-encode_loop : (s : Bytes) → length (encode_loop s) ≤ 3 * length s
unfolding encode_loop
length-encode_loop [] = omega arith
length-encode_loop (c ∷ s) = omega (
  arith,
  length-append (encode_char c) (encode_loop s),
  length-encode_char c,
  length-encode_loop s,
)

-- An encoded text holds unreserved bytes and `%` only, up to the last byte, which is NUL, and it fits
-- the `3 * size + 1` bytes that the encoder reserves.
pub url_encode_form :
    (s : Bytes)
    → (t : Bytes) × (url_encode s ≡ t ++ 0 ∷ [])
      × All IsUrlByte t
      × (length (url_encode s) ≤ 3 * length s + 1)
unfolding url_encode
url_encode_form s = (
  encode_loop s,
  refl,
  encode_loop-IsUrlByte s,
  omega (arith, length-append (encode_loop s) (0 ∷ []), length-encode_loop s),
)

-- A decoded text is no longer than the text, and is bytes where the text is.
pub length-url_decode : (s : Bytes) → length (url_decode s) ≤ length s
unfolding url_decode
length-url_decode [] = omega arith
length-url_decode (c ∷ []) = ground arith
length-url_decode (c ∷ x ∷ []) = ground (arith, length-url_decode (x ∷ []))
length-url_decode (c ∷ x ∷ y ∷ s) =
    ground (arith, length-url_decode s, length-url_decode (x ∷ y ∷ s))
