-- ===== src/Http/Encoding.antt =====
-- cppio/network/http/encoding.inl: percent-encoding. A `char` is the byte that it holds; `from_hex`
-- and the shift are taken modulo 256, as the conversion back to `char` takes them, and `isalnum`,
-- `isdigit` and `tolower` are those of the "C" locale, where a byte above 127 is no letter.
pub mod RoundTrip
use cppio.Common.{
  ℕ, ◌+◌, ◌-◌, ◌*◌, ◌/◌, ◌%◌, Bool, true, false, ◌&&◌, ◌||◌, [], ◌∷◌, ◌++◌, ◌==◌, leb, get_or,
  if◌then◌else◌,
}
use Prim.Native.Nat.{bit_or}
use cppio.Common.Text.{Bytes, codes}

abbrev pub within : ℕ → ℕ → ℕ → Bool
within lo hi c = leb lo c && leb c hi

unfoldable pub isdigit : ℕ → Bool
isdigit c = within b'0' b'9' c

unfoldable pub isalnum : ℕ → Bool
unfolding isdigit
isalnum c = isdigit c || within b'a' b'z' c || within b'A' b'Z' c

unfoldable pub tolower : ℕ → ℕ
tolower c = if within b'A' b'Z' c then c + 32 else c

unfoldable pub from_hex : ℕ → ℕ
unfolding isdigit tolower
from_hex ch = if isdigit ch then ch - b'0' else (tolower ch + 256 - b'a' + 10) % 256

-- `code & 15` of a byte is its remainder by 16.
unfoldable pub to_hex : ℕ → ℕ
to_hex code = get_or (codes "0123456789abcdef") (code % 16) 0

abbrev pub is_unreserved : ℕ → Bool
is_unreserved ch = isalnum ch || ch == b'-' || ch == b'_' || ch == b'.' || ch == b'~'

-- What one round of the loop of `url_encode` appends.
unfoldable pub encode_char : ℕ → Bytes
unfolding isalnum to_hex
encode_char ch =
    if is_unreserved ch then ch ∷ [] else b'%' ∷ to_hex (ch / 16) ∷ to_hex (ch % 16) ∷ []

unfoldable pub encode_loop : Bytes → Bytes
unfolding encode_char
encode_loop [] = []
encode_loop (ch ∷ url) = encode_char ch ++ encode_loop url

-- The source appends a NUL byte behind the loop.
unfoldable pub url_encode : Bytes → Bytes
unfolding encode_loop
url_encode url = encode_loop url ++ 0 ∷ []

-- The byte of `from_hex(one) << 4 | from_hex(two)`.
unfoldable pub hex_pair : ℕ → ℕ → ℕ
unfolding from_hex
hex_pair one two = bit_or ((from_hex one * 16) % 256) (from_hex two)

-- A `%` with fewer than two bytes behind it is dropped.
unfoldable pub url_decode : Bytes → Bytes
unfolding hex_pair
url_decode [] = []
url_decode (ch ∷ []) = if ch == b'%' then [] else if ch == b'+' then b' ' ∷ [] else ch ∷ []
url_decode (ch ∷ one ∷ []) =
    let rest = url_decode (one ∷ []) in
    if ch == b'%' then rest else if ch == b'+' then b' ' ∷ rest else ch ∷ rest
url_decode (ch ∷ one ∷ two ∷ url) =
    let escaped = hex_pair one two ∷ url_decode url in
    let rest = url_decode (one ∷ two ∷ url) in
    if ch == b'%' then escaped else if ch == b'+' then b' ' ∷ rest else ch ∷ rest
