-- ===== src/Network/Socket.antt =====
-- cppio/network/base_socket.cpp and network/posix/{tcp_socket,tcp_listener,udp_socket}.cpp: the sockets,
-- with the descriptors that they own. Each system call's answer is an argument; the state is the list of
-- the process's open descriptors. A coroutine that is still suspended has the answer `none`.
pub mod Owned
pub mod Stream
pub mod Waits
pub mod Exactly
pub mod Loops
pub mod Scheduled
use cppio.Common.{
  ℕ, zero, suc, ◌+◌, ◌-◌, ◌*◌, Bool, true, false, List, [], ◌∷◌, ◌++◌, Option, none, some, Outcome,
  value, error, network, closed, system_error, ltb, ◌==◌, if◌then◌else◌, length, take, drop,
}
use cppio.Common.Text.{Bytes}
use cppio.Runtime.Sets.{erase}
use cppio.Network.Ip.{Storage}
use cppio.Network.Endpoint
use cppio.Network.Endpoint.{Endpoint}

-- `base_socket`: `m_socket` and `m_out_socket`; `none` is `socket_invalid_handle`.
pub record Socket : Type 0 where
  pub in_fd : Option ℕ
  pub out_fd : Option ℕ

-- The default constructor.
abbrev pub unopened : Socket
unopened = record { in_fd = none; out_fd = none }

-- `dup`, whose failure leaves the invalid handle.
unfoldable pub opened : Option ℕ → List ℕ → List ℕ
opened none fds = fds
opened (some fd) fds = fd ∷ fds

unfoldable pub closed_fd : Option ℕ → List ℕ → List ℕ
closed_fd none fds = fds
closed_fd (some fd) fds = erase fd fds

-- The constructor from an open descriptor.
unfoldable pub construct : ℕ → Option ℕ → List ℕ → Socket × List ℕ
construct sock dup fds = (record { in_fd = some sock; out_fd = dup }, opened dup fds)

-- The destructor.
unfoldable pub destroy : Socket → List ℕ → List ℕ
destroy s fds = closed_fd s.in_fd (closed_fd s.out_fd fds)

-- The move constructor: the new socket, and what is left of the old.
unfoldable pub move : Socket → Socket × Socket
move s = (s, unopened)

-- The move assignment: the target and the source behind it.
unfoldable pub move_assign : Socket → Socket → Socket × Socket
move_assign lhs rhs = (record lhs { in_fd = rhs.in_fd }, record rhs { in_fd = lhs.in_fd })

-- The answers of the calls that make a socket: `socket`; the calls of `setsockopt` and `fcntl` that follow,
-- first to last; and `dup`.
pub record Answers : Type 0 where
  pub sock : Option ℕ
  pub options : List Bool
  pub dup : Option ℕ

-- The options are set one after the other; the first that fails closes the descriptor. The three functions that
-- make a socket set different options, and different numbers of them: each is an answer here, whichever it is of.
unfoldable pub set_options : ℕ → List Bool → List ℕ → Bool × List ℕ
set_options sock [] fds = (true, fds)
set_options sock (true ∷ answers) fds = set_options sock answers fds
set_options sock (false ∷ answers) fds = (false, erase sock fds)

-- A descriptor that is open and has its options.
unfoldable pub prepare : Answers → List ℕ → Outcome ℕ × List ℕ
prepare a fds = elim a.sock [
  | none ↦ (error (network system_error), fds)
  | some sock ↦
      let (all_set, left) = set_options sock a.options (sock ∷ fds) in
      (if all_set then value sock else error (network system_error), left)
]

-- The socket that is returned for a descriptor.
unfoldable pub wrap : ℕ → Answers → List ℕ → Outcome Socket × List ℕ
wrap sock a fds = let (s, left) = construct sock a.dup fds in (value s, left)

-- What `prepare` refuses is the answer; else the rest of the function goes on.
unfoldable pub and_then :
    Outcome ℕ × List ℕ → (ℕ → List ℕ → Outcome Socket × List ℕ) → Outcome Socket × List ℕ
and_then (value fd, left) next = next fd left
and_then (error e, left) next = (error e, left)
and_then (_, left) next = (error (network system_error), left)

pub data ConnectAnswer : Type 0 where
  connected in_progress refused : ConnectAnswer

-- `tcp_socket::connect`; the last argument is what epoll reports of the connection in progress.
unfoldable pub connect : Answers → ConnectAnswer → Bool → List ℕ → Outcome Socket × List ℕ
connect a answer success fds = and_then (prepare a fds) (λ sock left. elim answer [
  | connected ↦ wrap sock a left
  | refused ↦ (error (network closed), left)
  | in_progress ↦ if success then wrap sock a left else (error (network system_error), left)
])

-- `tcp_listener::create`; the answer of `listen` is not looked at.
unfoldable pub create : Answers → Bool → List ℕ → Outcome Socket × List ℕ
create a bound fds =
    and_then (prepare a fds)
      (λ sock left. if bound then wrap sock a left else (error (network system_error), left))

-- `udp_socket::bind`
unfoldable pub bind : Answers → Bool → List ℕ → Outcome Socket × List ℕ
bind a bound fds =
    and_then (prepare a fds)
      (λ sock left. if bound then wrap sock a left else (error (network closed), left))

-- `tcp_listener::accept`, from where it is resumed.
unfoldable pub accept : Option ℕ → Option ℕ → List ℕ → Outcome Socket × List ℕ
accept sock dup fds = elim sock [
  | none ↦ (error (network system_error), fds)
  | some fd ↦ let (s, left) = construct fd dup (fd ∷ fds) in (value s, left)
]

-- The answer of `recv` or `send`: a number of bytes, an error that means to wait, or another.
pub data Transfer : Type 0 where
  moved : (n : ℕ) → Transfer
  would_block failed : Transfer

-- `tcp_socket::read` and `udp_socket::read`: the answers of `recv`, each with what epoll reports of the wait
-- that follows it, if one does.
unfoldable pub read : List (Transfer × Bool) → Option (Outcome ℕ)
read [] = none
read ((failed, success) ∷ rest) = some (error (network closed))
read ((moved (suc n), success) ∷ rest) = some (value (suc n))
read ((moved zero, success) ∷ rest) =
    let again = read rest in if success then again else some (error (network closed))
read ((would_block, success) ∷ rest) =
    let again = read rest in if success then again else some (error (network closed))

-- `tcp_socket::read_exactly`: the answers of its calls of `read`.
unfoldable pub read_exactly : ℕ → ℕ → List (Outcome ℕ) → Option (Outcome ℕ)
read_exactly size total [] = if total == size then some (value 0) else none
read_exactly size total (value n ∷ rest) =
    let next = read_exactly size (total + n) rest in if total == size then some (value 0) else next
read_exactly size total (_ ∷ rest) =
    if total == size then some (value 0) else some (error (network closed))

-- The bytes that an answer says were taken.
unfoldable pub taken : Transfer → ℕ
taken (moved n) = n
taken _ = 0

unfoldable pub is_failed : Transfer → Bool
is_failed failed = true
is_failed _ = false

-- `tcp_socket::write`: the bytes that went out, and the answer.
unfoldable pub write : Bytes → ℕ → List (Transfer × Bool) → Bytes × Option (Outcome ℕ)
write data' sent [] = ([], if ltb sent (length data') then none else some (value sent))
write data' sent ((answer, success) ∷ rest) =
    let n = taken answer in
    let out = take n (drop sent data') in
    let (more, result) = write data' (sent + n) rest in
    if ltb sent (length data')
    then if is_failed answer
      then ([], some (error (network closed)))
      else if ltb (sent + n) (length data')
      then if success then (out ++ more, result) else (out, some (error (network closed)))
      else (out, some (value (sent + n)))
    else ([], some (value sent))

-- The loop of `udp_socket::write`, on the descriptor that it duplicated.
unfoldable pub send_loop : ℕ → List (Transfer × Bool) → List ℕ → Option (Outcome ℕ) × List ℕ
send_loop fd [] fds = (none, fds)
send_loop fd ((failed, success) ∷ rest) fds = (some (error (network closed)), erase fd fds)
send_loop fd ((moved (suc n), success) ∷ rest) fds = (some (value (suc n)), erase fd fds)
send_loop fd ((_, success) ∷ rest) fds =
    let again = send_loop fd rest fds in
    if success then again else (some (error (network closed)), erase fd fds)

-- `udp_socket::write`
unfoldable pub write_to : Option ℕ → List (Transfer × Bool) → List ℕ → Option (Outcome ℕ) × List ℕ
write_to none answers fds = (some (error (network system_error)), fds)
write_to (some fd) answers fds = send_loop fd answers (fd ∷ fds)

-- `udp_socket::read`: each answer of `recvfrom` comes with the address that it has written; the endpoint is
-- the caller's `remote_endpoint`.
unfoldable pub read_from :
    Endpoint → List (Transfer × Storage × Bool) → Option (Outcome ℕ) × Endpoint
read_from remote [] = (none, remote)
read_from remote ((failed, from, success) ∷ rest) = (some (error (network closed)), remote)
read_from remote ((moved (suc n), from, success) ∷ rest) =
    (some (value (suc n)), Endpoint.from_storage from)
read_from remote ((_, from, success) ∷ rest) =
    let again = read_from remote rest in
    if success then again else (some (error (network closed)), remote)
