-- ===== src/Network/Ip/V4.antt =====
-- cppio/network/ip.cpp and ip.hpp: `v4`. `inet_pton`, which the C library gives, is a parameter: the
-- bytes of the address that it reads.
use cppio.Common.{
  ℕ, ◌/◌, ◌%◌, ◌^◌, ◌∷◌, ◌++◌, Option, none, some, Outcome, value, error, network, bad_format,
}
use cppio.Common.Text.{Bytes}
use cppio.Common.Decimal
use cppio.Network.Ip.{InAddr, Storage, af_inet, htonl, ntohl, c_string}

pub record V4 : Type 0 where
  pub address : ℕ

unfoldable pub parse : (Bytes → Option InAddr) → Bytes → Outcome V4
parse inet_pton address = elim (inet_pton (c_string address)) [
  | none ↦ error (network bad_format)
  | some addr ↦ value (record { address = ntohl addr })
]

unfoldable pub fill : V4 → Storage → Storage
fill ip storage = record storage { family = af_inet; addr = htonl ip.address }

-- The operators `>>` and `&` of `to_string`, byte by byte.
unfoldable pub to_string : V4 → Bytes
to_string ip =
    Decimal.to_string (ip.address / 2 ^ 24 % 256)
    ++ b'.'
      ∷ (Decimal.to_string (ip.address / 2 ^ 16 % 256)
          ++ b'.'
            ∷ (Decimal.to_string (ip.address / 2 ^ 8 % 256)
                ++ b'.' ∷ (Decimal.to_string (ip.address % 256))))
