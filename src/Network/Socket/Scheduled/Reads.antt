-- ===== src/Network/Socket/Scheduled/Reads.antt =====
-- network/posix/{tcp_socket,udp_socket}.cpp: the reads and writes that the scheduler runs, and the models of their
-- loops in Network/Socket.
use cppio.Network.Ip.{Storage}
use cppio.Network.Endpoint.{Endpoint}
use cppio.Runtime.Timer.{has}
use cppio.Runtime.Sets.{contains}
use cppio.Common.Text.{Bytes}
use mathlib.Core.Option
use cppio.Common.{
  ℕ, refl, List, [], ◌++◌, Outcome, ◌≡◌, Bool, ◌<◌, true, length, sym, ◌∙◌, false, map, ap,
  append-nil,
}
use cppio.Runtime.Reactor.{Body, is_waiting}
use cppio.Runtime.Ports.{Port}
use cppio.Network.Socket.{Transfer, read, write, send_loop, read_from}
use cppio.Network.Socket.Loops.{
  run_loop, read_loop, write_loop, read_from_loop, write_to_loop, run_loop-read, run_loop-write,
  run_loop-read_from, run_loop-send_loop,
}
use cppio.Network.Socket.Scheduled.{Session, Reach, started}
use cppio.Network.Socket.Scheduled.Served.{IsAt}
use cppio.Network.Socket.Scheduled.Outcomes.{outcome, Reach-IsAt}

-- The task is new: it is active, in the queue, does not wait and has no timer.
abbrev pub IsNew : ℕ → Port → Type 0
IsNew t port =
    (contains port.reactor.active t ≡ true)
    × (is_waiting (port.reactor.states t) ≡ false)
    × (contains port.reactor.queue t ≡ true)
    × (has port.reactor.timers t ≡ false)

-- In every state that the scheduler reaches from one where the task of `tcp_socket::read` is new, whatever the other
-- tasks, the timers and epoll do between, while epoll takes every registration: a coroutine that has returned has
-- returned what `read` gives on the answers of its calls, and its task is active no longer; before that the task is
-- active, and is in the queue and may be resumed, or waits and is registered, and `read` on the answers so far
-- goes on with the rest of them, unless the wait will fail.
pub Reach-Reads :
    (body : Body) (t o : ℕ) (port : Port) (u : Session Transfer Unit (Outcome ℕ))
    → IsNew t port
    → Reach read_loop t o body (started tt port) u
    → IsAt read_loop t o u
      × ((rest : List (Transfer × Bool))
          → read (u.history ++ rest) ≡ outcome read_loop t o u.point rest)
Reach-Reads body t o port u new path =
    let (place, continues) = Reach-IsAt read_loop t o tt path new (λ rest. refl) in
    (place, λ rest. sym (run_loop-read (u.history ++ rest)) ∙ continues rest)

-- The same holds of `tcp_socket::write` of a text that is not empty, with the bytes that have gone out: what the
-- coroutine has returned, and what it will return, is what `write` gives on the answers of its calls.
pub Reach-Writes :
    (text : Bytes) (body : Body) (t o : ℕ) (port : Port)
    (u : Session Transfer (Bytes × ℕ) (Bytes × Outcome ℕ))
    → 0 < length text
    → IsNew t port
    → Reach (write_loop text) t o body (started ([], 0) port) u
    → IsAt (write_loop text) t o u
      × ((rest : List (Transfer × Bool))
          → let (out, answer) = write text 0 (u.history ++ rest) in
            Option.map (λ r. (out, r)) answer ≡ outcome (write_loop text) t o u.point rest)
Reach-Writes text body t o port u long new path =
    let (place, continues) = Reach-IsAt (write_loop text) t o ([], 0) path new (λ rest. refl) in
    (place, λ rest. sym (run_loop-write text [] 0 (u.history ++ rest) long) ∙ continues rest)

-- The same holds of `udp_socket::read`, with the endpoint that it leaves in `remote_endpoint`.
Reach-Reads_from :
    (remote : Endpoint) (body : Body) (t o : ℕ) (port : Port)
    (u : Session (Transfer × Storage) Unit (Outcome ℕ × Endpoint))
    (answers : List (Transfer × Storage × Bool))
    → IsNew t port
    → Reach (read_from_loop remote) t o body (started tt port) u
    → u.history ≡ map (λ a. ((a.0, a.1), a.2)) answers
    → IsAt (read_from_loop remote) t o u
      × (Option.map (λ r. (r, (read_from remote answers).1)) (read_from remote answers).0
          ≡ outcome (read_from_loop remote) t o u.point [])
Reach-Reads_from remote body t o port u answers new path same =
    let (place, continues) = Reach-IsAt (read_from_loop remote) t o tt path new (λ rest. refl) in
    let all : run_loop (read_from_loop remote) tt u.history
        ≡ run_loop (read_from_loop remote) tt (map (λ a. ((a.0, a.1), a.2)) answers) =
      ap (run_loop (read_from_loop remote) tt) same in
    let end = ap (run_loop (read_from_loop remote) tt) (append-nil u.history) in
    (place, sym (run_loop-read_from remote answers) ∙ sym all ∙ sym end ∙ continues [])

-- The same holds of the loop of `udp_socket::write`, with the descriptors that it leaves open.
Reach-Sends :
    (fd : ℕ) (fds : List ℕ) (body : Body) (t o : ℕ) (port : Port)
    (u : Session Transfer Unit (Outcome ℕ × List ℕ))
    → IsNew t port
    → Reach (write_to_loop fd fds) t o body (started tt port) u
    → IsAt (write_to_loop fd fds) t o u
      × ((rest : List (Transfer × Bool))
          → let (answer, left) = send_loop fd (u.history ++ rest) fds in
            Option.map (λ r. (r, left)) answer ≡ outcome (write_to_loop fd fds) t o u.point rest)
Reach-Sends fd fds body t o port u new path =
    let (place, continues) = Reach-IsAt (write_to_loop fd fds) t o tt path new (λ rest. refl) in
    (place, λ rest. sym (run_loop-send_loop fd fds (u.history ++ rest)) ∙ continues rest)
