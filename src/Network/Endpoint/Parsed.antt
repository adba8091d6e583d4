-- ===== src/Network/Endpoint/Parsed.antt =====
-- endpoint.cpp: where the address and the port of an endpoint that `parse` gives come from.
use cppio.Common.{
  ℕ, suc, Bool, true, false, List, [], ◌∷◌, ◌++◌, take, drop, some, none, Option, Outcome, value,
  error, terminate, diverge, ◌≡◌, ◌≤◌, ◌⊎◌, inl, inr, refl, sym, ap, subst, value-injective, ◌∙◌,
  arith, if◌then◌else◌, leb, ◌==◌, ◌&&◌,
}
use cppio.Common.Text.{Bytes}
use cppio.Common.Decimal.{stoul}
use cppio.Network.Ip.{InAddr, c_string, back}
use cppio.Network.Ip.V4
use cppio.Network.Ip.V6
use cppio.Network.Endpoint.{
  Address, Endpoint, ip4, ip6, parse_whole, parse_host, parse_port, parse, last_index_of,
  clear_back,
}

if-value :
    {A : Type 0} (b : Bool) (x y : Outcome A) (v : A)
    → (if b then x else y) ≡ value v
    → ((b ≡ true) × (x ≡ value v)) ⊎ ((b ≡ false) × (y ≡ value v))
if-value true x y v h = inl (refl, h)
if-value false x y v h = inr (refl, h)

-- The first outcome, or the second where it gives no value.
first-value :
    {A B : Type 0} (o : Outcome A) (f : A → B) (other : Outcome B) (w : B)
    → elim o [ value v ↦ value (f v) | _ ↦ other ] ≡ value w
    → ((v : A) × (o ≡ value v) × (Outcome.value (f v) ≡ value w)) ⊎ (other ≡ value w)
first-value (value v) f other w h = inl (v, refl, h)
first-value (error e) f other w h = inr h
first-value terminate f other w h = inr h
first-value diverge f other w h = inr h

abbrev port_of : Endpoint → ℕ
port_of e = e.port

module _ (pton4 : Bytes → Option InAddr) (pton6 : Bytes → Option (List ℕ)) where
  -- An address that a text names: an IPv6 address stands in brackets.
  abbrev Names : Bytes → Address → Type 0
  Names host (ip4 ip) = V4.parse pton4 (c_string host) ≡ value ip
  Names host (ip6 ip) =
      (take 1 host ≡ b'[' ∷ [])
      × (back host ≡ b']')
      × (V6.parse pton6 (c_string (drop 1 (clear_back host))) ≡ value ip)

  -- What `parse` reads with no port, and with one.
  abbrev pub IsWhole : Bytes → Endpoint → Type 0
  IsWhole address e = (parse_whole pton4 pton6 address ≡ value e) × (e.port ≡ 0)

  abbrev pub IsSplit : Bytes → Bytes → Endpoint → Type 0
  IsSplit behind address e =
      (separator : ℕ) × (last_index_of b':' address ≡ some separator)
      × (stoul (c_string (drop (suc separator) address ++ behind)) ≡ some e.port)
      × (e.port ≤ 65535)
      × Names (take separator address) e.addr

  whole_port :
      (address : Bytes) (e : Endpoint) → parse_whole pton4 pton6 address ≡ value e → e.port ≡ 0
  unfolding parse_whole
  whole_port address e h = elim (first-value (V6.parse pton6 address) _ _ e h) [
    | inl (ip, read, same) ↦ sym (ap port_of (value-injective same))
    | inr h4 ↦ elim (first-value (V4.parse pton4 address) _ _ e h4) [
      | inl (ip, read, same) ↦ sym (ap port_of (value-injective same))
      | inr none_left ↦ cc
    ]
  ]

  brackets :
      (c : ℕ) (s : Bytes)
      → (back (c ∷ s) == b']' && c == b'[') ≡ true
      → (back (c ∷ s) ≡ b']') × (take 1 (c ∷ s) ≡ b'[' ∷ [])
  brackets c s h = ground (arith, h)

  host_parsed :
      (address host : Bytes) (port : ℕ) (e : Endpoint)
      → port ≤ 65535
      → parse_host pton4 pton6 address port host ≡ value e
      → (parse_whole pton4 pton6 address ≡ value e) ⊎ ((e.port ≡ port) × Names host e.addr)
  unfolding parse_host
  host_parsed address [] port e small h = cc
  host_parsed address (c ∷ s) port e small h =
      elim (if-value (back (c ∷ s) == b']' && c == b'[') _ _ e h) [
        | inl (bracketed, h6) ↦
            elim (first-value (V6.parse pton6 (c_string (drop 1 (clear_back (c ∷ s))))) _ _ e h6) [
              | inl (ip, read, same) ↦ inr (
                  subst (λ w. (w.port ≡ port) × Names (c ∷ s) w.addr) (value-injective same)
                    (
                      omega (arith, small),
                      ((brackets c s bracketed).1, (brackets c s bracketed).0, read),
                    ))
              | inr whole ↦ inl whole
            ]
        | inr (plain, h4) ↦ elim (first-value (V4.parse pton4 (c_string (c ∷ s))) _ _ e h4) [
          | inl (ip, read, same) ↦ inr (
              subst (λ w. (w.port ≡ port) × Names (c ∷ s) w.addr) (value-injective same)
                (omega (arith, small), read))
          | inr whole ↦ inl whole
        ]
      ]

  port_parsed :
      (behind address : Bytes) (separator : ℕ) (e : Endpoint)
      → last_index_of b':' address ≡ some separator
      → parse_port pton4 pton6 behind address separator ≡ value e
      → (parse_whole pton4 pton6 address ≡ value e) ⊎ IsSplit behind address e
  unfolding parse_port
  port_parsed behind address separator e found h =
      go (stoul (c_string (drop (suc separator) address ++ behind))) refl h
    where
      go :
          (number : Option ℕ)
          → stoul (c_string (drop (suc separator) address ++ behind)) ≡ number
          → elim number [
            | none ↦ terminate
            | some port ↦
                if leb port 65535
                then parse_host pton4 pton6 address port (take separator address)
                else parse_whole pton4 pton6 address
          ]
            ≡ value e
          → (parse_whole pton4 pton6 address ≡ value e) ⊎ IsSplit behind address e
      go none number k = cc
      go (some port) number k = elim (if-value (leb port 65535) _ _ e k) [
        | inr (above, whole) ↦ inl whole
        | inl (fits, host) ↦
            let small : port ≤ 65535 = ground (arith, fits) in
            elim (host_parsed address (take separator address) port e small host) [
              | inl whole ↦ inl whole
              | inr (same, names) ↦
                  inr (
                    separator,
                    found,
                    number ∙ ap some (sym same),
                    omega (arith, same, small),
                    names,
                  )
            ]
      ]

  parsed :
      (behind address : Bytes) (e : Endpoint)
      → parse pton4 pton6 behind address ≡ value e
      → (parse_whole pton4 pton6 address ≡ value e) ⊎ IsSplit behind address e
  unfolding parse
  parsed behind address e h = go (last_index_of b':' address) refl h
    where
      go :
          (found : Option ℕ)
          → last_index_of b':' address ≡ found
          → elim found [
            | none ↦ parse_whole pton4 pton6 address
            | some separator ↦
                if back address == b']'
                then parse_whole pton4 pton6 address
                else parse_port pton4 pton6 behind address separator
          ]
            ≡ value e
          → (parse_whole pton4 pton6 address ≡ value e) ⊎ IsSplit behind address e
      go none found k = inl k
      go (some separator) found k = elim (if-value (back address == b']') _ _ e k) [
        | inl (bracketed, whole) ↦ inl whole
        | inr (open_end, port) ↦ port_parsed behind address separator e found port
      ]

-- Every endpoint that `parse` gives, for every text and whatever lies behind it, is either the address that the
-- whole text names, with the port zero, or the address that stands before the last colon, an IPv6 address in
-- brackets, with the very number that `std::stoul` reads behind it, which is at most 65535: no port is cut down to
-- its 16 bits.
pub parse-IsSplit :
    (pton4 : Bytes → Option InAddr) (pton6 : Bytes → Option (List ℕ)) (behind address : Bytes)
    (e : Endpoint)
    → parse pton4 pton6 behind address ≡ value e
    → IsWhole pton4 pton6 address e ⊎ IsSplit pton4 pton6 behind address e
parse-IsSplit pton4 pton6 behind address e h = elim (parsed pton4 pton6 behind address e h) [
  | inl whole ↦ inl (whole, whole_port pton4 pton6 address e whole)
  | inr split ↦ inr split
]
