-- ===== src/Network/Windows.antt =====
-- cppio/network/win32/{tcp_socket,tcp_listener,udp_socket}.cpp: the sockets on Windows. The state is the list of
-- the open handles. Each call's answer is an argument; an operation that has been started ends by a completion,
-- and `none` stands for one that has not come. What is returned has the state of the task behind the last
-- statement, since the calls of `wait` stand before the calls that may refuse.
pub mod Handles
pub mod Transfers
pub mod Stuck
pub mod Exactly
use cppio.Common.{
  ℕ, zero, suc, ◌+◌, Bool, true, false, List, [], ◌∷◌, ◌++◌, Option, none, some, Outcome, value,
  error, network, closed, system_error, ltb, if◌then◌else◌, length, take, drop,
}
use cppio.Common.Text.{Bytes}
use cppio.Runtime.Sets.{erase}
use cppio.Runtime.Reactor.{ScheduleType, done, run, wait}
use cppio.Network.Ip.{Storage}
use cppio.Network.Endpoint
use cppio.Network.Endpoint.{Endpoint}

-- The end of an operation: `success` and `bytes_transferred` of `basic_overlapped`.
pub record Completion : Type 0 where
  pub success : Bool
  pub bytes : ℕ

-- `none` is a coroutine that is suspended.
pub record Result {ℓ} (A : Type ℓ) : Type ℓ where
  pub answer : Option (Outcome A)
  pub handles : List ℕ
  pub state : ScheduleType

abbrev pub fails {ℓ} : {A : Type ℓ} → List ℕ → ScheduleType → Result A
fails handles state = record {
  answer = some (error (network system_error));
  handles = handles;
  state = state;
}

-- The answers of the calls of `connect`: `WSASocketA`, `bind`, whether there is a `ConnectEx`, and whether it has
-- started the connection.
pub record ConnectCalls : Type 0 where
  pub sock : Option ℕ
  pub bound : Bool
  pub extension : Bool
  pub started : Bool

-- The end of a started operation, for which the coroutine waits.
unfoldable pub finish_connect : ℕ → Option Completion → List ℕ → Result ℕ
finish_connect sock none handles = record { answer = none; handles = handles; state = wait }
finish_connect sock (some c) handles =
    if c.success
    then record { answer = some (value sock); handles = handles; state = run }
    else fails (erase sock handles) run

-- `tcp_socket::connect`; on each path that does not return it, the destructor of `out` closes the handle.
unfoldable pub connect : ConnectCalls → Option Completion → List ℕ → Result ℕ
connect calls completion handles = elim calls.sock [
  | none ↦ fails handles run
  | some sock ↦
      if calls.bound
      then if calls.extension
        then if calls.started
          then finish_connect sock completion (sock ∷ handles)
          else fails (erase sock (sock ∷ handles)) wait
        else fails (erase sock (sock ∷ handles)) run
      else fails (erase sock (sock ∷ handles)) run
]

-- `tcp_listener::create`
unfoldable pub create : Option ℕ → Bool → List ℕ → Outcome ℕ × List ℕ
create none bound handles = (error (network system_error), handles)
create (some sock) bound handles =
    (if bound then value sock else error (network system_error), sock ∷ handles)

-- `udp_socket::bind`
unfoldable pub bind : Option ℕ → Bool → List ℕ → Outcome ℕ × List ℕ
bind none bound handles = (error (network system_error), handles)
bind (some sock) bound handles =
    (if bound then value sock else error (network closed), sock ∷ handles)

-- The answer of `AcceptEx`: the operation has started, and ends with or without success, or the client has reset
-- the connection, or another error.
pub data AcceptAnswer : Type 0 where
  started : (success : Bool) → AcceptAnswer
  reset refused : AcceptAnswer

-- The loop of `accept`, over the answers of `AcceptEx`; the task is made to wait once, before the loop. The last
-- part is the states of the task in which the coroutine suspends, first to last.
unfoldable pub accept_loop :
    ℕ → List AcceptAnswer → ScheduleType → List ℕ → Result ℕ × List ScheduleType
accept_loop sock [] state handles = (record { answer = none; handles = handles; state = state }, [])
accept_loop sock (started true ∷ rest) state handles =
    (record { answer = some (value sock); handles = handles; state = run }, state ∷ [])
accept_loop sock (started false ∷ rest) state handles =
    let (result, suspended) = accept_loop sock rest run handles in (result, state ∷ suspended)
accept_loop sock (reset ∷ rest) state handles = accept_loop sock rest state handles
accept_loop sock (refused ∷ rest) state handles = (fails (erase sock handles) state, [])

-- `tcp_listener::accept`
unfoldable pub accept : Option ℕ → List AcceptAnswer → List ℕ → Result ℕ × List ScheduleType
accept none answers handles = (fails handles run, [])
accept (some sock) answers handles = accept_loop sock answers wait (sock ∷ handles)

-- `tcp_socket::read`: whether `WSARecv` has started the operation, and its end. A failed operation gives the
-- size zero.
unfoldable pub read : Bool → Option Completion → Option (Outcome ℕ) × ScheduleType
read false completion = (some (error (network closed)), wait)
read true none = (none, wait)
read true (some c) = (some (value (if c.success then c.bytes else 0)), run)

-- `udp_socket::read`; the endpoint is the caller's `remote_endpoint`.
unfoldable pub read_from :
    Bool → Option Completion → Storage → Endpoint → Option (Outcome ℕ) × ScheduleType × Endpoint
read_from false completion from remote = (some (error (network closed)), wait, remote)
read_from true none from remote = (none, wait, remote)
read_from true (some c) from remote =
    if c.success
    then (some (value c.bytes), run, Endpoint.from_storage from)
    else (some (value 0), run, remote)

-- `udp_socket::write`
unfoldable pub write_to : Bool → Option Completion → Option (Outcome ℕ) × ScheduleType
write_to false completion = (some (error (network closed)), wait)
write_to true none = (none, wait)
write_to true (some c) = (some (if c.success then value c.bytes else error (network closed)), run)

-- A call of `WSASend`, which refuses or ends by a completion.
pub data Send : Type 0 where
  refuses : Send
  completes : (c : Completion) → Send

-- `tcp_socket::write`: the bytes that went out, and the answer.
unfoldable pub write : Bytes → ℕ → List Send → Bytes × Option (Outcome ℕ)
write text total [] = ([], if ltb total (length text) then none else some (value total))
write text total (refuses ∷ rest) =
    ([], some (if ltb total (length text) then error (network closed) else value total))
write text total (completes c ∷ rest) =
    let out = take c.bytes (drop total text) in
    let (more, result) = write text (total + c.bytes) rest in
    if ltb total (length text)
    then if c.success then (out ++ more, result) else ([], some (error (network closed)))
    else ([], some (value total))
