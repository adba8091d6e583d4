-- ===== src/Network/Socket/Waits.antt =====
-- network/posix/{tcp_socket,tcp_listener,udp_socket}.cpp: what the coroutines do to what the workers share when
-- they wait for a descriptor. The argument is the answer of the completion port, which they do not look at.
use cppio.Common.{ℕ, refl, Bool, true, List, [], ◌∷◌, ◌++◌, map}
use cppio.Runtime.Workers.{Access, waits, registers, spawns}
use cppio.Runtime.Workers.Found.{WaitsFirst, registers_later}

-- `tcp_listener::accept`
unfoldable pub accept_waits : Bool → List Access
accept_waits registered = registers registered ∷ waits ∷ []

-- `tcp_socket::connect`, where the connection is in progress.
unfoldable pub connect_waits : Bool → List Access
connect_waits registered = registers registered ∷ waits ∷ []

-- `tcp_socket::read`
unfoldable pub read_waits : Bool → List Access
read_waits registered = waits ∷ registers registered ∷ []

-- `tcp_socket::write`
unfoldable pub write_waits : Bool → List Access
write_waits registered = waits ∷ registers registered ∷ []

-- `udp_socket::read`
unfoldable pub read_from_waits : Bool → List Access
read_from_waits registered = waits ∷ registers registered ∷ []

-- `udp_socket::write`
unfoldable pub write_to_waits : Bool → List Access
write_to_waits registered = waits ∷ registers registered ∷ []

-- A coroutine that spawns some tasks before it waits waits first if the rest of it does.
spawns-WaitsFirst :
    (us : List ℕ) (rest : List Access) → WaitsFirst rest → WaitsFirst (map spawns us ++ rest)
spawns-WaitsFirst [] rest h = h
spawns-WaitsFirst (u ∷ us) rest h = spawns-WaitsFirst us rest h

-- The reads and writes of both kinds of sockets wait before they register, whatever tasks they spawn before.
pub reads-WaitsFirst :
    (us : List ℕ)
    → WaitsFirst (map spawns us ++ read_waits true)
      × WaitsFirst (map spawns us ++ write_waits true)
      × WaitsFirst (map spawns us ++ read_from_waits true)
      × WaitsFirst (map spawns us ++ write_to_waits true)
unfolding registers_later read_waits write_waits read_from_waits write_to_waits
reads-WaitsFirst us = (
  spawns-WaitsFirst us _ (refl, tt),
  spawns-WaitsFirst us _ (refl, tt),
  spawns-WaitsFirst us _ (refl, tt),
  spawns-WaitsFirst us _ (refl, tt),
)
