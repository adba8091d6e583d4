-- ===== src/Network/Ip/V6.antt =====
-- cppio/network/ip.cpp and ip.hpp: `v6`. `inet_pton`, which the C library gives, is a parameter: the
-- bytes of the address that it reads.
use cppio.Common.{
  ℕ, zero, suc, ◌+◌, ◌-◌, ◌/◌, ◌%◌, not, ◌&&◌, ◌||◌, List, [], ◌∷◌, ◌++◌, Option, none, some,
  Outcome, value, error, network, bad_format, ltb, leb, ◌==◌, if◌then◌else◌, length, take, drop,
  get_or,
}
use cppio.Common.Text.{Bytes}
use cppio.Network.Ip.{Storage, af_inet6, htons, ntohs, c_string, back}

-- The eight words of the address, first to last.
pub record V6 : Type 0 where
  pub word : List ℕ

-- The constructor, from the sixteen bytes of an `in6_addr`.
unfoldable pub from_bytes : List ℕ → List ℕ
from_bytes [] = []
from_bytes (high ∷ []) = []
from_bytes (high ∷ low ∷ rest) = ntohs (high, low) ∷ from_bytes rest

unfoldable pub to_bytes : List ℕ → List ℕ
to_bytes [] = []
to_bytes (w ∷ ws) = (htons w).0 ∷ (htons w).1 ∷ to_bytes ws

unfoldable pub read : (Bytes → Option (List ℕ)) → Bytes → Outcome V6
read inet_pton text = elim (inet_pton (c_string text)) [
  | none ↦ error (network bad_format)
  | some addr ↦ value (record { word = from_bytes addr })
]

unfoldable pub parse : (Bytes → Option (List ℕ)) → Bytes → Outcome V6
parse inet_pton address =
    let whole = read inet_pton address in
    if ltb (length address) 2
    then error (network bad_format)
    else if get_or address 0 0 == b'[' && back address == b']'
    then elim (read inet_pton (take (length address - 2) (drop 1 address))) [
      | value ip ↦ value ip
      | _ ↦ whole
    ]
    else whole

unfoldable pub fill : V6 → Storage → Storage
fill ip storage = record storage { family = af_inet6; addr6 = to_bytes ip.word }

-- `std::hex` of a 16-bit word.
unfoldable pub hex_digit : ℕ → ℕ
hex_digit n = if ltb n 10 then b'0' + n else b'a' + (n - 10)

unfoldable pub hex_digits : ℕ → ℕ → Bytes → Bytes
hex_digits zero n out = out
hex_digits (suc fuel) n out =
    let more = hex_digits fuel (n / 16) (hex_digit (n % 16) ∷ out) in
    if ltb n 16 then hex_digit n ∷ out else more

unfoldable pub zeros : List ℕ → ℕ
zeros [] = 0
zeros (w ∷ ws) = if w == 0 then suc (zeros ws) else 0

-- The search for the longest run of zeros: its length and its index. A run is left behind together with
-- the word that ends it.
unfoldable pub longest : ℕ → ℕ → List ℕ → ℕ × ℕ → ℕ × ℕ
longest zero i ws best = best
longest (suc fuel) i [] best = best
longest (suc fuel) i (w ∷ ws) best =
    let n = zeros (w ∷ ws) in
    let run = longest fuel (i + n + 1) (drop (n + 1) (w ∷ ws)) in
    let better = run (n, i) in
    let kept = run best in
    let next = longest fuel (suc i) ws best in
    if w == 0 then if ltb best.0 n then better else kept else next

-- The loop that writes the words from index `i` on.
unfoldable pub write : ℕ → List ℕ → ℕ × ℕ → ℕ → Bytes
write zero word best i = []
write (suc fuel) word (zero_length, zero_index) i =
    let skipped = write fuel word (zero_length, zero_index) (i + zero_length) in
    let next = write fuel word (zero_length, zero_index) (suc i) in
    if leb 8 i
    then []
    else if i == zero_index && ltb 1 zero_length
    then b':' ∷ b':' ∷ skipped
    else hex_digits 4 (get_or word i 0)
        (if ltb i 7 && (not (suc i == zero_index) || leb zero_length 1) then b':' ∷ next else next)

unfoldable pub body : V6 → Bytes
body ip = write 8 ip.word (longest 8 0 ip.word (0, 0)) 0

unfoldable pub to_string : V6 → Bytes
to_string ip = b'[' ∷ (body ip ++ b']' ∷ [])
