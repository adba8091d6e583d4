-- ===== src/Network/Ip/Filled.antt =====
-- ip.cpp: the bytes that `fill` writes are read back as the address.
use cppio.Common.{ℕ, ◌<◌, ◌≡◌, refl, arith, List, [], ◌∷◌, ◌^◌, All}
use cppio.Network.Ip.{htons, ntohs, htonl, ntohl}
use cppio.Network.Ip.V6

pub ntohs-htons : (x : ℕ) → x < 2 ^ 16 → ntohs (htons x) ≡ x
unfolding ntohs htons
ntohs-htons x h = omega arith

pub ntohl-htonl : (x : ℕ) → x < 2 ^ 32 → ntohl (htonl x) ≡ x
unfolding ntohl htonl
ntohl-htonl x h = omega arith

pub from_bytes-to_bytes :
    (ws : List ℕ) → All (λ w. w < 2 ^ 16) ws → V6.from_bytes (V6.to_bytes ws) ≡ ws
unfolding V6.from_bytes V6.to_bytes
from_bytes-to_bytes [] h = refl
from_bytes-to_bytes (w ∷ ws) h = rw (ntohs-htons w h.0, from_bytes-to_bytes ws h.1) refl
