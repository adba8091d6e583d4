-- ===== src/Tests/Addresses.antt =====
-- Runs of ip.cpp and endpoint.cpp.
use cppio.Network.Endpoint.Parsed.{IsWhole, IsSplit, parse-IsSplit}
use cppio.Common.{
  ℕ, ◌≡◌, refl, arith, [], ◌∷◌, ◌++◌, List, Option, none, some, value, terminate, if◌then◌else◌,
  ◌≢◌, ◌⊎◌,
}
use cppio.Common.Text.{Bytes, codes, bytes_eq}
use cppio.Common.Decimal.{stoul, digits}
use cppio.Common.Decimal
use cppio.Network.Ip.{InAddr, Storage, htonl, c_string, back}
use cppio.Network.Ip.V4
use cppio.Network.Ip.V6
use cppio.Network.Ip.V6.{V6}
use cppio.Network.Ip.LongestRun.{IsLongest}
use cppio.Network.Ip.Compressed.{compressed, to_string-compressed}
use cppio.Network.Endpoint
use cppio.Network.Endpoint.{Endpoint, ip4, ip6}
use cppio.Network.Endpoint.Stored.{from_storage-fill}
use cppio.Network.Endpoint.RoundTrip.{parse-to_string}
use cppio.Network.Endpoint.Printed.{Reads}
use cppio.Network.Endpoint.Errors.{parse_bad_port}

-- A reader that knows one IPv4 address.
abbrev only : Bytes → Option InAddr
only text =
    if bytes_eq text (codes "127.0.0.1")
    then some (record { a = 127; b = 0; c = 0; d = 1 })
    else none

abbrev refuses : Bytes → Option (List ℕ)
refuses text = none

abbrev local_http : Endpoint
local_http = record { addr = ip4 (record { address = 2130706433 }); port = 8080 }

local_http-text : Endpoint.to_string local_http ≡ codes "127.0.0.1:8080"
unfolding Endpoint.to_string Endpoint.host_text V4.to_string Decimal.to_string digits
local_http-text = refl

abbrev v6_of : List ℕ → V6
v6_of ws = record { word = ws }

compressed_run :
    V6.to_string (v6_of (8193 ∷ 3512 ∷ 0 ∷ 0 ∷ 1 ∷ 0 ∷ 0 ∷ 0 ∷ [])) ≡ codes "[2001:db8:0:0:1::]"
unfolding V6.to_string V6.body V6.longest V6.zeros V6.write V6.hex_digits V6.hex_digit
compressed_run = refl

loopback_run : V6.to_string (v6_of (0 ∷ 0 ∷ 0 ∷ 0 ∷ 0 ∷ 0 ∷ 0 ∷ 1 ∷ [])) ≡ codes "[::1]"
unfolding V6.to_string V6.body V6.longest V6.zeros V6.write V6.hex_digits V6.hex_digit
loopback_run = refl

to_string-compressed_example :
    (r : ℕ × ℕ) × IsLongest 0 (8193 ∷ 3512 ∷ 0 ∷ 0 ∷ 1 ∷ 0 ∷ 0 ∷ 0 ∷ []) (0, 0) r
    × (V6.to_string (v6_of (8193 ∷ 3512 ∷ 0 ∷ 0 ∷ 1 ∷ 0 ∷ 0 ∷ 0 ∷ []))
        ≡ b'[' ∷ (compressed (8193 ∷ 3512 ∷ 0 ∷ 0 ∷ 1 ∷ 0 ∷ 0 ∷ 0 ∷ []) r ++ b']' ∷ []))
to_string-compressed_example =
    to_string-compressed (v6_of (8193 ∷ 3512 ∷ 0 ∷ 0 ∷ 1 ∷ 0 ∷ 0 ∷ 0 ∷ [])) refl

local_http-Reads : Reads only refuses local_http.addr
unfolding V4.to_string Decimal.to_string digits bytes_eq htonl
local_http-Reads = (refl, refl)

parse-to_string_example :
    Endpoint.parse only refuses [] (Endpoint.to_string local_http) ≡ value local_http
parse-to_string_example =
    parse-to_string only refuses local_http (omega arith, omega arith) local_http-Reads

abbrev empty_storage : Storage
empty_storage = record {
  family = 0;
  port = (0, 0);
  addr = record { a = 0; b = 0; c = 0; d = 0 };
  addr6 = [];
  scope_id = 7;
}

from_storage-fill_example :
    (Endpoint.from_storage (Endpoint.fill local_http empty_storage) ≡ local_http)
    × (Endpoint.socket_endpoint (some (Endpoint.fill local_http empty_storage)) ≡ value local_http)
from_storage-fill_example = from_storage-fill local_http empty_storage (omega arith, omega arith)

parse_bad_port_example :
    Endpoint.parse only refuses [] (codes "fe80:" ++ b':' ∷ codes "x") ≡ terminate
parse_bad_port_example =
    parse_bad_port only refuses [] (codes "fe80:") (codes "x") ((λ e. omega (arith, e)), tt)
      last_open number_bad
  where
    last_open : back (b':' ∷ codes "x") ≢ b']'
    last_open = λ e. unfold back in omega (arith, e)

    number_bad : stoul (c_string (codes "x" ++ [])) ≡ none
    number_bad = unfold c_string stoul in refl

local_http-parse : Endpoint.parse only refuses [] (Endpoint.to_string local_http) ≡ value local_http
local_http-parse =
    parse-to_string only refuses local_http (omega arith, omega arith) local_http-Reads

parse-IsSplit_example :
    IsWhole only refuses (Endpoint.to_string local_http) local_http
    ⊎ IsSplit only refuses [] (Endpoint.to_string local_http) local_http
parse-IsSplit_example =
    parse-IsSplit only refuses [] (Endpoint.to_string local_http) local_http local_http-parse
