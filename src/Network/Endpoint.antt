-- ===== src/Network/Endpoint.antt =====
-- cppio/network/endpoint.cpp and endpoint.hpp: the endpoints. `inet_pton` is a parameter, as in
-- Network/Ip. The text that `parse` is given is a view, and the bytes that lie behind it in memory, up to
-- the first NUL, are an argument: `std::stoul` is given a pointer into the view and reads on into them.
pub mod Stored
pub mod Parts
pub mod Printed
pub mod RoundTrip
pub mod Errors
pub mod Parsed
use cppio.Common.{
  ℕ, zero, suc, ◌+◌, ◌%◌, ◌^◌, Bool, true, false, ◌&&◌, List, [], ◌∷◌, ◌++◌, Option, none, some,
  Outcome, value, error, terminate, network, bad_format, closed, leb, ◌==◌, if◌then◌else◌, take,
  drop,
}
use cppio.Common.Text.{Bytes}
use cppio.Common.Decimal
use cppio.Common.Decimal.{stoul}
use cppio.Network.Ip.{InAddr, Storage, af_inet, af_inet6, htons, ntohs, ntohl, c_string, back}
use cppio.Network.Ip.V4
use cppio.Network.Ip.V4.{V4}
use cppio.Network.Ip.V6
use cppio.Network.Ip.V6.{V6}

-- `std::variant<ip::v4, ip::v6>`
pub data Address : Type 0 where
  ip4 : V4 → Address
  ip6 : V6 → Address

pub record Endpoint : Type 0 where
  pub addr : Address
  pub port : ℕ

abbrev pub initial : Endpoint
initial = record { addr = ip4 (record { address = 0 }); port = 0 }

unfoldable pub last_index_of : ℕ → Bytes → Option ℕ
last_index_of c [] = none
last_index_of c (x ∷ xs) = elim (last_index_of c xs) [
  | none ↦ if x == c then some 0 else none
  | some i ↦ some (suc i)
]

-- `text[text.size() - 1] = '\0'`
unfoldable pub clear_back : Bytes → Bytes
clear_back [] = []
clear_back (x ∷ []) = 0 ∷ []
clear_back (x ∷ y ∷ s) = x ∷ clear_back (y ∷ s)

module _ (pton4 : Bytes → Option InAddr) (pton6 : Bytes → Option (List ℕ)) where
  -- The address alone.
  unfoldable pub parse_whole : Bytes → Outcome Endpoint
  parse_whole address = elim (V6.parse pton6 address) [
    | value ip ↦ value (record { addr = ip6 ip; port = 0 })
    | _ ↦ elim (V4.parse pton4 address) [
      | value ip ↦ value (record { addr = ip4 ip; port = 0 })
      | _ ↦ error (network bad_format)
    ]
  ]

  -- The address in front of a port that fits. The last character of an empty text is read, and its first,
  -- which is undefined behaviour, and stands here as the end of the process.
  unfoldable pub parse_host : Bytes → ℕ → Bytes → Outcome Endpoint
  parse_host address port [] = terminate
  parse_host address port (c ∷ s) =
      if back (c ∷ s) == b']' && c == b'['
      then elim (V6.parse pton6 (c_string (drop 1 (clear_back (c ∷ s))))) [
        | value ip ↦ value (record { addr = ip6 ip; port = port % 2 ^ 16 })
        | _ ↦ parse_whole address
      ]
      else elim (V4.parse pton4 (c_string (c ∷ s))) [
        | value ip ↦ value (record { addr = ip4 ip; port = port % 2 ^ 16 })
        | _ ↦ parse_whole address
      ]

  -- The exceptions of `std::stoul` end the process, since `parse` is marked `noexcept`.
  unfoldable pub parse_port : Bytes → Bytes → ℕ → Outcome Endpoint
  parse_port behind address separator =
      elim (stoul (c_string (drop (suc separator) address ++ behind))) [
        | none ↦ terminate
        | some port ↦
            if leb port 65535
            then parse_host address port (take separator address)
            else parse_whole address
      ]

  unfoldable pub parse : Bytes → Bytes → Outcome Endpoint
  parse behind address = elim (last_index_of b':' address) [
    | none ↦ parse_whole address
    | some separator ↦
        if back address == b']' then parse_whole address else parse_port behind address separator
  ]

-- The constructor from a `sockaddr_storage`.
unfoldable pub from_storage : Storage → Endpoint
from_storage storage =
    if storage.family == af_inet
    then record { addr = ip4 (record { address = ntohl storage.addr }); port = ntohs storage.port }
    else record {
      addr = ip6 (record { word = V6.from_bytes storage.addr6 });
      port = ntohs storage.port;
    }

unfoldable pub family_of : Endpoint → ℕ
family_of e = elim e.addr [ ip4 ip ↦ af_inet | ip6 ip ↦ af_inet6 ]

unfoldable pub set_port : ℕ → Endpoint → Endpoint
set_port port e = record e { port = port }

unfoldable pub set_address : Address → Endpoint → Endpoint
set_address addr e = record e { addr = addr }

unfoldable pub fill : Endpoint → Storage → Storage
fill e storage = elim e.addr [
  | ip4 ip ↦ record (V4.fill ip storage) { port = htons e.port }
  | ip6 ip ↦ record (V6.fill ip storage) { port = htons e.port; scope_id = 0 }
]

unfoldable pub host_text : Address → Bytes
host_text (ip4 ip) = V4.to_string ip
host_text (ip6 ip) = V6.to_string ip

unfoldable pub to_string : Endpoint → Bytes
to_string e =
    if e.port == 0 then host_text e.addr else host_text e.addr ++ b':' ∷ Decimal.to_string e.port

-- base_socket.cpp: `local_endpoint` and `internal_remote_endpoint`, from what `getsockname` or
-- `getpeername` answers.
unfoldable pub socket_endpoint : Option Storage → Outcome Endpoint
socket_endpoint none = error (network closed)
socket_endpoint (some storage) =
    if storage.family == af_inet6
    then value (record {
      addr = ip6 (record { word = V6.from_bytes storage.addr6 });
      port = ntohs storage.port;
    })
    else value
        (record { addr = ip4 (record { address = ntohl storage.addr }); port = ntohs storage.port })
