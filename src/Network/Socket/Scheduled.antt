-- ===== src/Network/Socket/Scheduled.antt =====
-- network/posix/{tcp_socket,udp_socket}.cpp with basic_reactor.inl, basic_task.cpp and epoll.cpp: the coroutine of a
-- read or a write as the task `t` of the reactor, with its `basic_overlapped` as the operation `o` of the port. The
-- steps are those of the scheduler; the other tasks do what they like between those of this one.
use cppio.Runtime.Reactor.Frame.{Spares}
use cppio.Runtime.Reactor.Tracking.{popped}
use cppio.Runtime.Sets.{update, contains}
use cppio.Runtime.Ports.{Port, Overlapped, Event}
pub mod Served
pub mod Outcomes
pub mod Resumptions
pub mod Finishes
pub mod Reads
use cppio.Common.{
  ℕ, ◌≢◌, List, Bool, ◌∷◌, true, if◌then◌else◌, false, [], ◌++◌, ◌≡◌, All, not, ◌||◌,
}
use cppio.Runtime.Reactor.{
  Body, Reactor, process_task, spawn, Action, poll_timers, awaits, is_waiting,
}
use cppio.Runtime.Ports
use cppio.Network.Socket.Loops.{Loop, waits, returns, Turn}

-- Where the coroutine stands: before its first call, at the suspension, with what epoll will report of the wait, or
-- behind its return.
pub data Point (L R : Type 0) : Type 0 where
  starting : (l : L) → Point L R
  pausing : (l : L) (success : Bool) → Point L R
  finished : (r : R) → Point L R

-- The port with the reactor, where the coroutine stands, and the answers of its calls so far, each with what epoll
-- reports of the wait behind it.
pub record Session (A L R : Type 0) : Type 0 where
  pub port : Port
  pub point : Point L R
  pub history : List (A × Bool)

-- The coroutine has been made, and its task is new.
abbrev pub started : {A L R : Type 0} → L → Port → Session A L R
started l port = record { port = port; point = starting l; history = [] }

abbrev pub is_starting : {L R : Type 0} → Point L R → Bool
is_starting (starting l) = true
is_starting _ = false

abbrev pub is_pausing : {L R : Type 0} → Point L R → Bool
is_pausing (pausing l success) = true
is_pausing _ = false

abbrev pub is_finished : {L R : Type 0} → Point L R → Bool
is_finished (finished r) = true
is_finished _ = false

-- What the coroutine does with the answer of its call, and where it then stands.
abbrev pub turned : {L R : Type 0} → Turn L R → Bool → List Action × Point L R
turned (returns r) success = ([], finished r)
turned (waits l) success = (awaits true ∷ [], pausing l success)

module _ {A L R : Type 0} (loop : Loop A L R) (t o : ℕ) where
  -- From the system call to the next suspension or the return.
  unfoldable pub call : L → A → Bool → List Action × Point L R
  call l a success = turned (loop.attempt l a) success

  -- One resumption; `reported` is the field `success` of the `basic_overlapped`.
  unfoldable pub advance : Point L R → Bool → A → Bool → List Action × Point L R
  advance (starting l) reported a success = call l a success
  advance (pausing l expected) reported a success =
      if reported then call l a success else ([], finished (loop.refused l))
  advance (finished r) reported a success = ([], finished r)

  -- The call that a resumption makes, if it makes one.
  unfoldable pub called : Point L R → Bool → A → Bool → List (A × Bool)
  called (starting l) reported a success = (a, success) ∷ []
  called (pausing l expected) reported a success = if reported then (a, success) ∷ [] else []
  called (finished r) reported a success = []

  -- The constructor of `basic_overlapped` runs before the loop, or before each wait.
  unfoldable pub renew : Point L R → Point L R → (ℕ → Overlapped) → ℕ → Overlapped
  renew before after operations =
      if (if loop.renews then is_pausing after else is_starting before)
      then update operations o (record { task = t; success = false; bytes = 0 })
      else operations

  -- What a resumption leaves, where the coroutine's task has been taken off the front of the queue.
  unfoldable pub resume : List ℕ → A → Bool → Session A L R → Session A L R
  resume rest a success s =
      let reported = (s.port.operations o).success in
      let (acts, after) = advance s.point reported a success in
      record {
        port = record {
          reactor = process_task (λ u r. (acts, is_finished after)) t (popped rest s.port.reactor);
          operations = renew s.point after s.port.operations;
        };
        point = after;
        history = s.history ++ called s.point reported a success;
      }

  abbrev pub with_reactor : Reactor → Session A L R → Session A L R
  with_reactor r s = record s { port = record s.port { reactor = r } }

  -- What can happen next: a task is spawned, the timers are polled, epoll has an event of another operation, another
  -- task is processed, which makes operations of its own, the task of the coroutine is taken from the queue while it
  -- waits, or is resumed, with the answer of the call that it may make and what epoll will report then; and epoll
  -- reports the wait.
  pub data Step (body : Body) (s : Session A L R) : Session A L R → Type 0 where
    spawned : (u : ℕ) → u ≢ t → Step body s (with_reactor (spawn u s.port.reactor) s)
    polled : (now : ℕ) → Step body s (with_reactor (poll_timers now s.port.reactor).0 s)
    elsewhere :
        (e : Event)
        → (s.port.operations e.operation).task ≢ t
        → e.operation ≢ o
        → Step body s (record s { port = Ports.report e s.port })
    processed :
        (u : ℕ) (rest : List ℕ) (operations : ℕ → Overlapped)
        → s.port.reactor.queue ≡ u ∷ rest
        → u ≢ t
        → All (Spares t) (body u (popped rest s.port.reactor)).0
        → operations o ≡ s.port.operations o
        → Step body s (record s {
          port = record {
            reactor = process_task body u (popped rest s.port.reactor);
            operations = operations;
          };
        })
    skipped :
        (rest : List ℕ)
        → s.port.reactor.queue ≡ t ∷ rest
        → is_waiting (s.port.reactor.states t) ≡ true
        → Step body s (with_reactor (process_task body t (popped rest s.port.reactor)) s)
    resumed :
        (rest : List ℕ) (a : A) (success : Bool)
        → s.port.reactor.queue ≡ t ∷ rest
        → is_waiting (s.port.reactor.states t) ≡ false
        → Step body s (resume rest a success s)
    reported :
        (l : L) (success : Bool) (e : Event)
        → s.point ≡ pausing l success
        → contains s.port.reactor.interest t ≡ true
        → e.operation ≡ o
        → not (e.events.failed || e.events.hung_up) ≡ success
        → Step body s (record s { port = Ports.report e s.port })

  pub data Reach (body : Body) (s : Session A L R) : Session A L R → Type 0 where
    here : Reach body s s
    next : {u v : Session A L R} → Reach body s u → Step body u v → Reach body s v
