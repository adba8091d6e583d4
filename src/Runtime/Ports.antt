-- ===== src/Runtime/Ports.antt =====
-- cppio/impl/posix/epoll.cpp and impl/win32/iocp.cpp: the two completion ports, with the `basic_overlapped` of
-- each operation that is under way. What the system answers is an argument: the events that `epoll_wait` gives,
-- the answers of `epoll_ctl`, and what `GetQueuedCompletionStatus` takes off its queue.
pub mod Timeouts
pub mod Woken
pub mod Registered
use cppio.Common.{
  ℕ, ◌*◌, ◌/◌, ◌%◌, ◌^◌, Bool, true, false, not, ◌||◌, Option, none, some, List, [], ◌∷◌, ltb, ◌==◌,
  if◌then◌else◌, ◌-◌,
}
use cppio.Runtime.Sets.{update}
use cppio.Runtime.Reactor.{Reactor, wake, complete}

-- `basic_overlapped`: the task that is woken, and how its operation has ended. On POSIX `bytes` is not there.
pub record Overlapped : Type 0 where
  pub task : ℕ
  pub success : Bool
  pub bytes : ℕ

-- The reactor, and the operations by their number, the pointer that is given to the system.
pub record Port : Type 0 where
  pub reactor : Reactor
  pub operations : ℕ → Overlapped

-- A mask of epoll.
pub record Events : Type 0 where
  pub readable : Bool
  pub writable : Bool
  pub failed : Bool
  pub hung_up : Bool
  pub one_shot : Bool

-- The masks of `add_for_read`, `add_for_write` and `add_for_all`.
abbrev pub for_read : Events
for_read = record {
  readable = true;
  writable = false;
  failed = true;
  hung_up = true;
  one_shot = true;
}

abbrev pub for_write : Events
for_write = record {
  readable = false;
  writable = true;
  failed = true;
  hung_up = true;
  one_shot = true;
}

abbrev pub for_all : Events
for_all = record {
  readable = true;
  writable = true;
  failed = true;
  hung_up = true;
  one_shot = true;
}

-- What `add_for_read` asks of the system, and what it returns, from the answers of the two calls of `epoll_ctl`:
-- whether the registration was changed, and otherwise whether it was added.
unfoldable pub add_for_read : Bool → Bool → Events × Bool
add_for_read modified added = (for_read, if modified then true else added)

-- `add_for_write` and `add_for_all` have no return behind the change: `none` is what they return there.
unfoldable pub add_for_write : Bool → Bool → Events × Option Bool
add_for_write modified added = (for_write, if modified then none else some added)

unfoldable pub add_for_all : Bool → Bool → Events × Option Bool
add_for_all modified added = (for_all, if modified then none else some added)

-- One event of `epoll_wait`: the operation that it carries, and what has happened.
pub record Event : Type 0 where
  pub operation : ℕ
  pub events : Events

-- The body of the loop of `epoll::run`.
unfoldable pub report : Event → Port → Port
report e port =
    let o = port.operations e.operation in
    record {
      reactor = complete o.task port.reactor;
      operations =
          update port.operations e.operation
            (record o { success = not (e.events.failed || e.events.hung_up) });
    }

-- `epoll::run`
unfoldable pub epoll_run : List Event → Port → Port
epoll_run [] port = port
epoll_run (e ∷ events) port = epoll_run events (report e port)

-- What `GetQueuedCompletionStatus` gives: nothing within the time, a packet of `notify_one`, or the end of an
-- operation.
pub data Packet : Type 0 where
  nothing notified : Packet
  ended : (operation : ℕ) (result : Bool) (bytes_transferred : ℕ) → Packet

-- `iocp::run`
unfoldable pub iocp_run : Packet → Port → Port
iocp_run nothing port = port
iocp_run notified port = port
iocp_run (ended operation result bytes_transferred) port =
    let o = port.operations operation in
    record {
      reactor = wake o.task port.reactor;
      operations =
          update port.operations operation
            (record o { success = result; bytes = bytes_transferred });
    }

abbrev pub one_millisecond : ℕ
one_millisecond = 1000000

-- The time that `epoll_wait` is given: the milliseconds of a time in nanoseconds, of 63 bits, as an int of 32
-- bits. A negative one, here `none`, makes it block until there is an event.
unfoldable pub epoll_timeout : ℕ → Option ℕ
epoll_timeout wait_time =
    let ms = (wait_time / one_millisecond) % 2 ^ 32 in if ltb ms (2 ^ 31) then some ms else none

-- The time that `GetQueuedCompletionStatus` is given, a DWORD, of which the greatest means without end.
unfoldable pub iocp_timeout : ℕ → Option ℕ
iocp_timeout wait_time =
    let delay = (wait_time / one_millisecond) % 2 ^ 32 in
    if delay == 2 ^ 32 - 1 then none else some delay
