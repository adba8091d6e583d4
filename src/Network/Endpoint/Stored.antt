-- ===== src/Network/Endpoint/Stored.antt =====
-- endpoint.cpp, base_socket.cpp: an endpoint that `fill` writes into a `sockaddr_storage` is read back.
use cppio.Common.{ℕ, ◌<◌, ◌≡◌, refl, All, length, ◌^◌, some, value}
use cppio.Network.Ip.{Storage}
use cppio.Network.Ip.V4
use cppio.Network.Ip.V6
use cppio.Network.Ip.Filled.{ntohs-htons, ntohl-htonl, from_bytes-to_bytes}
use cppio.Network.Endpoint.{Address, ip4, ip6, Endpoint, from_storage, fill, socket_endpoint}

-- The widths of the fields in the program.
abbrev pub IsAddress : Address → Type 0
IsAddress (ip4 ip) = ip.address < 2 ^ 32
IsAddress (ip6 ip) = (length ip.word ≡ 8) × All (λ w. w < 2 ^ 16) ip.word

abbrev pub IsEndpoint : Endpoint → Type 0
IsEndpoint e = IsAddress e.addr × (e.port < 2 ^ 16)

module _ (port : ℕ) (storage : Storage) where
  fill_both :
      (addr : Address)
      → IsEndpoint (record { addr = addr; port = port })
      → (from_storage (fill (record { addr = addr; port = port }) storage)
          ≡ record { addr = addr; port = port })
        × (socket_endpoint (some (fill (record { addr = addr; port = port }) storage))
            ≡ value (record { addr = addr; port = port }))
  unfolding from_storage fill V4.fill V6.fill socket_endpoint
  fill_both (ip4 ip) (a, p) = (
    rw (ntohs-htons port p, ntohl-htonl ip.address a) refl,
    rw (ntohs-htons port p, ntohl-htonl ip.address a) refl,
  )
  fill_both (ip6 ip) ((n, a), p) = (
    rw (ntohs-htons port p, from_bytes-to_bytes ip.word a) refl,
    rw (ntohs-htons port p, from_bytes-to_bytes ip.word a) refl,
  )

-- An endpoint whose address and port have the widths of the program is read back from a
-- `sockaddr_storage` that it was written into, whatever stood there, by the constructor, and by a socket
-- whose `getsockname` answers with that storage.
pub from_storage-fill :
    (e : Endpoint) (storage : Storage)
    → IsEndpoint e
    → (from_storage (fill e storage) ≡ e) × (socket_endpoint (some (fill e storage)) ≡ value e)
from_storage-fill e storage h = fill_both e.port storage e.addr h
