-- ===== src/Network/Endpoint/RoundTrip.antt =====
-- endpoint.cpp: the text that `to_string` writes is read back by `parse`.
use cppio.Common.{
  ℕ, ◌<◌, ◌≡◌, ◌≢◌, ◌^◌, ◌%◌, refl, ap, ◌∙◌, arith, All, List, [], ◌∷◌, ◌++◌, length, drop, none,
  Option, true, false, value, ◌==◌, ltb, Bool-cases, Option-cases, inl, inr, ◌&&◌, subst,
}
use cppio.Common.Text.{Bytes}
use cppio.Common.Searches.{Lacks}
use cppio.Common.Decimal
use cppio.Common.Decimal.{stoul, stoul-to_string, IsDigit, to_string-IsDigit}
use cppio.Network.Ip.{InAddr, c_string, back}
use cppio.Network.Ip.Filled.{ntohl-htonl}
use cppio.Network.Ip.Printed.{c_string-Lacks, back-append, IsPlain, All-imp, body-IsPlain}
use cppio.Network.Ip.V4
use cppio.Network.Ip.V4.{V4}
use cppio.Network.Ip.V6
use cppio.Network.Ip.V6.{V6}
use cppio.Network.Endpoint.{
  Address, ip4, ip6, Endpoint, parse_whole, parse_host, parse, last_index_of, host_text, to_string,
  clear_back,
}
use cppio.Network.Endpoint.Parts.{last_index_of-Lacks, c_string-clear_back, drop-clear_back}
use cppio.Network.Endpoint.Stored.{IsAddress, IsEndpoint}
use cppio.Network.Endpoint.Printed.{
  Reads, back_one, dotted-Lacks, dotted-cons, parse_port-to_string, V4_read, V6_read, V6_bracketed,
  V6_bare, V6_refuses,
}

module _ (pton4 : Bytes → Option InAddr) (pton6 : Bytes → Option (List ℕ)) where
  whole4 :
      (ip : V4)
      → ip.address < 2 ^ 32
      → Reads pton4 pton6 (ip4 ip)
      → parse_whole pton4 pton6 (V4.to_string ip) ≡ value (record { addr = ip4 ip; port = 0 })
  unfolding parse_whole V4.parse
  whole4 ip small reads =
      let plain = c_string-Lacks (V4.to_string ip) (dotted-Lacks 0 ip (λ d. omega (arith, d))) in
      rw
        (
          parse_whole,
          V6_refuses pton4 pton6 ip reads,
          V4.parse,
          plain,
          reads.0,
          ntohl-htonl ip.address small,
        )
        refl

  whole6 :
      (ip : V6)
      → IsAddress (ip6 ip)
      → Reads pton4 pton6 (ip6 ip)
      → parse_whole pton4 pton6 (V6.to_string ip) ≡ value (record { addr = ip6 ip; port = 0 })
  unfolding parse_whole
  whole6 ip small reads = rw (parse_whole, V6_bracketed pton4 pton6 ip small reads) refl

  host4 :
      (ip : V4) (n : ℕ) (address : Bytes)
      → ip.address < 2 ^ 32
      → n < 2 ^ 16
      → Reads pton4 pton6 (ip4 ip)
      → parse_host pton4 pton6 address n (V4.to_string ip)
        ≡ value (record { addr = ip4 ip; port = n })
  unfolding parse_host
  host4 ip n address small fits reads =
      let (c, s, e) = dotted-cons ip in
      let read : V4.parse pton4 (c_string (c ∷ s)) ≡ value ip =
        subst (λ t. V4.parse pton4 (c_string t) ≡ value ip) e
          (V4_read pton4 pton6 ip small reads) in
      let lacks : Lacks b'[' (c ∷ s) =
        subst (Lacks b'[') e (dotted-Lacks b'[' ip (λ d. omega (arith, d))) in
      let closed : (back (c ∷ s) == b']' && c == b'[') ≡ false = ground (arith, lacks.0) in
      let same : n % 2 ^ 16 ≡ n = omega (arith, fits) in rw (e, parse_host, closed, read, same) refl

  body_parsed :
      (ip : V6)
      → IsAddress (ip6 ip)
      → Reads pton4 pton6 (ip6 ip)
      → V6.parse pton6 (V6.body ip) ≡ value ip
  body_parsed ip small reads =
      go (V6.body ip) (body-IsPlain ip) (V6_read pton4 pton6 ip small reads) long
    where
      long : ltb (length (V6.body ip)) 2 ≡ false
      long = elim (Bool-cases (ltb (length (V6.body ip)) 2)) [
        | inl short ↦ absurd (cc (reads.1 (V6.body ip) (ground (arith, short)), reads.0))
        | inr enough ↦ enough
      ]

      go :
          (s : Bytes)
          → All IsPlain s
          → V6.read pton6 s ≡ value ip
          → ltb (length s) 2 ≡ false
          → V6.parse pton6 s ≡ value ip
      go [] h r l = absurd (cc l)
      go (c ∷ s) h r l = V6_bare pton4 pton6 c s h.0.1 l ∙ r

  host6 :
      (ip : V6) (n : ℕ) (address : Bytes)
      → IsAddress (ip6 ip)
      → n < 2 ^ 16
      → Reads pton4 pton6 (ip6 ip)
      → parse_host pton4 pton6 address n (V6.to_string ip)
        ≡ value (record { addr = ip6 ip; port = n })
  unfolding parse_host V6.to_string
  host6 ip n address small fits reads =
      let text = V6.body ip ++ b']' ∷ [] in
      let last : (back (b'[' ∷ text) == b']') ≡ true =
        rw (back-append (b'[' ∷ V6.body ip) b']' []) (rw (back_one b']') refl) in
      let plain : Lacks 0 (V6.body ip) =
        All-imp IsPlain (λ x. x ≢ 0) (V6.body ip) (λ x d e. d.0 e) (body-IsPlain ip) in
      let cut : c_string (drop 1 (clear_back (b'[' ∷ text))) ≡ V6.body ip =
        ap c_string (drop-clear_back b'[' (V6.body ip) b']')
        ∙ c_string-clear_back (V6.body ip) b']' plain in
      let same : n % 2 ^ 16 ≡ n = omega (arith, fits) in
      rw (parse_host, last, cut, body_parsed ip small reads, same) refl

  no_port :
      (addr : Address)
      → IsAddress addr
      → Reads pton4 pton6 addr
      → parse pton4 pton6 [] (host_text addr) ≡ value (record { addr = addr; port = 0 })
  unfolding parse host_text
  no_port (ip4 ip) a reads =
      let none_found : last_index_of b':' (V4.to_string ip) ≡ none =
        last_index_of-Lacks b':' (V4.to_string ip) (dotted-Lacks b':' ip (λ d. omega (arith, d))) in
      rw (parse, none_found) (whole4 ip a reads)
  no_port (ip6 ip) a reads =
      let last : (back (V6.to_string ip) == b']') ≡ true =
        unfold V6.to_string in
        rw (back-append (b'[' ∷ V6.body ip) b']' []) (rw (back_one b']') refl) in
      elim (Option-cases (last_index_of b':' (V6.to_string ip))) [
        | inl none_found ↦ rw (parse, none_found) (whole6 ip a reads)
        | inr (i, found) ↦ rw (parse, found, last) (whole6 ip a reads)
      ]

  module _ (port : ℕ) (fits : port < 2 ^ 16) where
    parse-to_string_addr :
        (addr : Address)
        → IsAddress addr
        → Reads pton4 pton6 addr
        → parse pton4 pton6 [] (to_string (record { addr = addr; port = port }))
          ≡ value (record { addr = addr; port = port })
    unfolding to_string
    parse-to_string_addr addr a reads = elim (Bool-cases (port == 0)) [
      | inl zero_port ↦
          let zero : port ≡ 0 = ground (arith, zero_port) in
          rw (zero_port, zero) (no_port addr a reads)
      | inr some_port ↦
          rw some_port
            (parse_port-to_string pton4 pton6 (host_text addr) port fits ∙ with_port addr a reads)
    ]
      where
        with_port :
            (addr : Address)
            → IsAddress addr
            → Reads pton4 pton6 addr
            → parse_host pton4 pton6
                (host_text addr ++ b':' ∷ Decimal.to_string port)
                port
                (host_text addr)
              ≡ value (record { addr = addr; port = port })
        with_port (ip4 ip) a reads = unfold host_text in host4 ip port _ a fits reads
        with_port (ip6 ip) a reads = unfold host_text in host6 ip port _ a fits reads

-- An endpoint whose address and port have the widths of the program is read back from the text that
-- `to_string` writes for it, with its port or, where this is zero, without one, if nothing but a NUL lies behind
-- the text, and if `inet_pton` reads the text of the address as its bytes, no dotted text as an IPv6 address
-- and none that is shorter than `::`.
pub parse-to_string :
    (pton4 : Bytes → Option InAddr) (pton6 : Bytes → Option (List ℕ)) (e : Endpoint)
    → IsEndpoint e
    → Reads pton4 pton6 e.addr
    → parse pton4 pton6 [] (to_string e) ≡ value e
parse-to_string pton4 pton6 e (a, p) reads =
    parse-to_string_addr pton4 pton6 e.port p e.addr a reads
