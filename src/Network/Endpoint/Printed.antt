-- ===== src/Network/Endpoint/Printed.antt =====
-- endpoint.cpp, ip.cpp: what `parse` finds in the texts that `to_string` writes.
use cppio.Common.{
  ℕ, suc, ◌-◌, ◌/◌, ◌<◌, ◌≡◌, ◌≢◌, ◌^◌, ◌%◌, refl, ap, ◌∙◌, arith, All, List, [], ◌∷◌, ◌++◌, length,
  drop, take, some, none, Option, true, false, value, error, network, bad_format, ◌==◌, leb, ltb,
  append-nil, take-length-append, Bool-cases, inl, inr, length-append, get_or, subst,
}
use cppio.Common.Text.{Bytes}
use cppio.Common.Searches.{Lacks}
use cppio.Common.Decimal
use cppio.Common.Decimal.{stoul, stoul-to_string, IsDigit, to_string-IsDigit}
use cppio.Network.Ip.{InAddr, c_string, back, htonl}
use cppio.Network.Ip.Filled.{ntohl-htonl, from_bytes-to_bytes}
use cppio.Network.Ip.Printed.{
  c_string-Lacks, back-All, back-append, IsDotted, IsPlain, All-imp, to_string-IsDotted,
  body-IsPlain,
}
use cppio.Network.Ip.V4
use cppio.Network.Ip.V4.{V4}
use cppio.Network.Ip.V6
use cppio.Network.Ip.V6.{V6}
use cppio.Network.Endpoint.{Address, ip4, ip6, parse_host, parse_port, parse, last_index_of}
use cppio.Network.Endpoint.Parts.{last_index_of-append, drop-suc-length}
use cppio.Network.Endpoint.Stored.{IsAddress}

to_string-cons : (n : ℕ) → (c : ℕ) × (s : Bytes) × (Decimal.to_string n ≡ c ∷ s)
to_string-cons n = go (Decimal.to_string n) (Decimal.to_string-ne-nil n)
  where
    go : (s : Bytes) → s ≢ [] → (c : ℕ) × (t : Bytes) × (s ≡ c ∷ t)
    go [] h = absurd (h refl)
    go (c ∷ s) h = (c, s, refl)

-- The last character of a text that ends with a number.
back-to_string : (xs : Bytes) (n : ℕ) → IsDigit (back (xs ++ Decimal.to_string n))
back-to_string xs n =
    let (c, s, e) = to_string-cons n in
    let digits : All IsDigit (c ∷ s) = subst (All IsDigit) e (to_string-IsDigit n) in
    rw (e, back-append xs c s) (back-All IsDigit c s digits)

to_string-Lacks_digit : (c n : ℕ) → (IsDigit c → ⊥) → Lacks c (Decimal.to_string n)
to_string-Lacks_digit c n h =
    All-imp IsDigit (λ x. x ≢ c) (Decimal.to_string n) (λ x d e. h (subst IsDigit e d))
      (to_string-IsDigit n)

pub back_one : (x : ℕ) → back (x ∷ []) ≡ x
unfolding back
back_one x = refl

pub dotted-Lacks : (c : ℕ) (ip : V4) → (IsDotted c → ⊥) → Lacks c (V4.to_string ip)
dotted-Lacks c ip h =
    All-imp IsDotted (λ x. x ≢ c) (V4.to_string ip) (λ x d e. h (subst IsDotted e d))
      (to_string-IsDotted ip)

pub dotted-cons : (ip : V4) → (c : ℕ) × (s : Bytes) × (V4.to_string ip ≡ c ∷ s)
unfolding V4.to_string
dotted-cons ip = go (Decimal.to_string (ip.address / 2 ^ 24 % 256)) _ (to_string-cons _)
  where
    go :
        (first rest : Bytes)
        → (c : ℕ) × (s : Bytes) × (first ≡ c ∷ s)
        → (c : ℕ) × (s : Bytes) × (first ++ rest ≡ c ∷ s)
    go first rest (c, s, e) = (c, s ++ rest, ap (λ d. d ++ rest) e)

-- What the theorem needs of `inet_pton`: it reads the text of this address as its bytes. A dotted text is
-- no IPv6 address, and no IPv6 address has fewer than two characters, of which `::` is the shortest.
abbrev pub Reads : (Bytes → Option InAddr) → (Bytes → Option (List ℕ)) → Address → Type 0
Reads pton4 pton6 (ip4 ip) =
    (pton4 (V4.to_string ip) ≡ some (htonl ip.address)) × (pton6 (V4.to_string ip) ≡ none)
Reads pton4 pton6 (ip6 ip) =
    (pton6 (V6.body ip) ≡ some (V6.to_bytes ip.word))
    × ((s : Bytes) → length s < 2 → pton6 s ≡ none)

module _ (pton4 : Bytes → Option InAddr) (pton6 : Bytes → Option (List ℕ)) where
  pub parse_port-to_string :
      (host : Bytes) (n : ℕ)
      → n < 2 ^ 16
      → parse pton4 pton6 [] (host ++ b':' ∷ Decimal.to_string n)
        ≡ parse_host pton4 pton6 (host ++ b':' ∷ Decimal.to_string n) n host
  unfolding parse parse_port
  parse_port-to_string host n h =
      let text = host ++ b':' ∷ Decimal.to_string n in
      let found : last_index_of b':' text ≡ some (length host) =
        last_index_of-append b':' host (Decimal.to_string n)
          (to_string-Lacks_digit b':' n (λ d. omega (arith, d))) in
      let last : (back text == b']') ≡ false =
        let (c, s, e) = to_string-cons n in
        let d : IsDigit (back (b':' ∷ Decimal.to_string n)) = back-to_string (b':' ∷ []) n in
        let same : back text ≡ back (b':' ∷ Decimal.to_string n) =
          back-append host b':' (Decimal.to_string n) in
        ground (arith, d, same) in
      let cut : c_string (drop (suc (length host)) text ++ []) ≡ Decimal.to_string n =
        ap (λ s. c_string (s ++ [])) (drop-suc-length host (Decimal.to_string n) b':')
        ∙ ap c_string (append-nil (Decimal.to_string n))
        ∙ c_string-Lacks (Decimal.to_string n)
            (to_string-Lacks_digit 0 n (λ d. omega (arith, d))) in
      let number : stoul (Decimal.to_string n) ≡ some n = stoul-to_string n (omega (arith, h)) in
      let fits : leb n 65535 ≡ true = ground (arith, h) in
      rw
        (
          parse,
          found,
          last,
          parse_port,
          cut,
          number,
          fits,
          take-length-append host (b':' ∷ Decimal.to_string n),
        )
        refl

  pub V4_read :
      (ip : V4)
      → ip.address < 2 ^ 32
      → Reads pton4 pton6 (ip4 ip)
      → V4.parse pton4 (c_string (V4.to_string ip)) ≡ value ip
  unfolding V4.parse
  V4_read ip small reads =
      let plain = c_string-Lacks (V4.to_string ip) (dotted-Lacks 0 ip (λ d. omega (arith, d))) in
      rw (V4.parse, plain, plain, reads.0, ntohl-htonl ip.address small) refl

  pub V6_read :
      (ip : V6)
      → IsAddress (ip6 ip)
      → Reads pton4 pton6 (ip6 ip)
      → V6.read pton6 (V6.body ip) ≡ value ip
  unfolding V6.read
  V6_read ip small reads =
      let plain : Lacks 0 (V6.body ip) =
        All-imp IsPlain (λ x. x ≢ 0) (V6.body ip) (λ x d e. d.0 e) (body-IsPlain ip) in
      rw (V6.read, c_string-Lacks (V6.body ip) plain, reads.0, from_bytes-to_bytes ip.word small.1)
        refl

  -- A text in brackets, and one that does not begin with a bracket.
  pub V6_bracketed :
      (ip : V6)
      → IsAddress (ip6 ip)
      → Reads pton4 pton6 (ip6 ip)
      → V6.parse pton6 (V6.to_string ip) ≡ value ip
  unfolding V6.parse V6.to_string
  V6_bracketed ip small reads =
      let text = V6.body ip ++ b']' ∷ [] in
      let size : length text ≡ suc (length (V6.body ip)) =
        omega (arith, length-append (V6.body ip) (b']' ∷ [])) in
      let long : ltb (suc (length text)) 2 ≡ false = ground (arith, size) in
      let last : (back (b'[' ∷ text) == b']') ≡ true =
        rw (back-append (b'[' ∷ V6.body ip) b']' []) (rw (back_one b']') refl) in
      let cut : take (suc (length text) - 2) text ≡ V6.body ip =
        let n : suc (length text) - 2 ≡ length (V6.body ip) = omega (arith, size) in
        rw n (take-length-append (V6.body ip) (b']' ∷ [])) in
      rw (V6.parse, long, last, cut, V6_read ip small reads) refl

  pub V6_bare :
      (c : ℕ) (s : Bytes)
      → c ≢ b'['
      → ltb (length (c ∷ s)) 2 ≡ false
      → V6.parse pton6 (c ∷ s) ≡ V6.read pton6 (c ∷ s)
  unfolding V6.parse
  V6_bare c s n long =
      let first : (c == b'[') ≡ false = ground (arith, n) in rw (V6.parse, long, first) refl

  pub V6_refuses :
      (ip : V4)
      → Reads pton4 pton6 (ip4 ip)
      → V6.parse pton6 (V4.to_string ip) ≡ error (network bad_format)
  unfolding V6.parse V6.read
  V6_refuses ip reads =
      let plain = c_string-Lacks (V4.to_string ip) (dotted-Lacks 0 ip (λ d. omega (arith, d))) in
      let (c, s, e) = dotted-cons ip in
      let first : (get_or (V4.to_string ip) 0 0 == b'[') ≡ false =
        let lacks : Lacks b'[' (c ∷ s) =
          subst (Lacks b'[') e (dotted-Lacks b'[' ip (λ d. omega (arith, d))) in
        rw e (ground (arith, lacks.0)) in
      elim (Bool-cases (ltb (length (V4.to_string ip)) 2)) [
        | inl short ↦ rw (V6.parse, short) refl
        | inr long ↦ rw (V6.parse, long, first, V6.read, plain, reads.1) refl
      ]
