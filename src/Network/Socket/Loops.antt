-- ===== src/Network/Socket/Loops.antt =====
-- network/posix/{tcp_socket,udp_socket}.cpp: `read` and `write` of both kinds of sockets have one form: a system call,
-- then a return, or a wait for the descriptor behind which the call is made again. A record says what each does
-- with an answer of its system call.
use cppio.Runtime.Sets.{erase}
use cppio.Network.Ip.{Storage}
use cppio.Common.Text.{Bytes}
use cppio.Network.Endpoint.{Endpoint}
use cppio.Common.{
  value, ltb, [], ◌∷◌, ℕ, suc, zero, refl, Outcome, Bool, List, Option, ◌≡◌, error, none, network,
  ◌++◌, closed, take, drop, true, false, if◌then◌else◌, some, map, arith, ◌<◌, ◌+◌, length,
  Bool-cases, inl, append-nil, inr, append_assoc,
}
use cppio.Network.Endpoint
use mathlib.Core.Option
use cppio.Network.Socket.{
  moved, failed, would_block, Transfer, read, write, send_loop, read_from, taken, is_failed,
}

-- What the coroutine does with an answer: it waits, with its variables as they then are, or returns.
pub data Turn (L R : Type 0) : Type 0 where
  waits : (l : L) → Turn L R
  returns : (r : R) → Turn L R

-- `A` are the answers of the system call, `L` the variables of the coroutine, and `R` what it returns.
pub record Loop (A L R : Type 0) : Type 0 where
  pub attempt : L → A → Turn L R
  -- what it returns if the wait fails
  pub refused : L → R
  -- whether the `basic_overlapped` is made anew for each wait
  pub renews : Bool

module _ {A L R : Type 0} (loop : Loop A L R) where
  -- The loop over the answers, each with what epoll reports of the wait behind it.
  unfoldable pub run_loop : L → List (A × Bool) → Option R
  run_loop l [] = none
  run_loop l ((a, success) ∷ rest) = elim (loop.attempt l a) [
    | returns r ↦ some r
    | waits next ↦ if success then run_loop next rest else some (loop.refused next)
  ]

-- `tcp_socket::read`
unfoldable pub receive : Transfer → Turn Unit (Outcome ℕ)
receive failed = returns (error (network closed))
receive (moved (suc n)) = returns (value (suc n))
receive (moved zero) = waits tt
receive would_block = waits tt

unfoldable pub read_loop : Loop Transfer Unit (Outcome ℕ)
read_loop = record {
  attempt = (λ l a. receive a);
  refused = (λ l. error (network closed));
  renews = true;
}

-- `tcp_socket::write`: the bytes that went out, and how many. Where nothing is left to send, which is so of an
-- empty text only, no call is made, and the answer is not looked at.
unfoldable pub send : Bytes → Bytes × ℕ → Transfer → Turn (Bytes × ℕ) (Bytes × Outcome ℕ)
send text (out, sent) answer =
    let n = taken answer in
    let now = out ++ take n (drop sent text) in
    if ltb sent (length text)
    then if is_failed answer
      then returns (out, error (network closed))
      else if ltb (sent + n) (length text)
      then waits (now, sent + n)
      else returns (now, value (sent + n))
    else returns (out, value sent)

unfoldable pub write_loop : Bytes → Loop Transfer (Bytes × ℕ) (Bytes × Outcome ℕ)
write_loop text = record {
  attempt = send text;
  refused = (λ l. (l.0, error (network closed)));
  renews = false;
}

-- `udp_socket::read`, with the caller's `remote_endpoint`.
unfoldable pub receive_from : Endpoint → Transfer × Storage → Turn Unit (Outcome ℕ × Endpoint)
receive_from remote (failed, from) = returns (error (network closed), remote)
receive_from remote (moved (suc n), from) = returns (value (suc n), Endpoint.from_storage from)
receive_from remote (moved zero, from) = waits tt
receive_from remote (would_block, from) = waits tt

unfoldable pub read_from_loop : Endpoint → Loop (Transfer × Storage) Unit (Outcome ℕ × Endpoint)
read_from_loop remote = record {
  attempt = (λ l. receive_from remote);
  refused = (λ l. (error (network closed), remote));
  renews = true;
}

-- The loop of `udp_socket::write`, on its descriptor.
unfoldable pub send_to : ℕ → List ℕ → Transfer → Turn Unit (Outcome ℕ × List ℕ)
send_to fd fds failed = returns (error (network closed), erase fd fds)
send_to fd fds (moved (suc n)) = returns (value (suc n), erase fd fds)
send_to fd fds (moved zero) = waits tt
send_to fd fds would_block = waits tt

unfoldable pub write_to_loop : ℕ → List ℕ → Loop Transfer Unit (Outcome ℕ × List ℕ)
write_to_loop fd fds = record {
  attempt = (λ l. send_to fd fds);
  refused = (λ l. (error (network closed), erase fd fds));
  renews = false;
}

pub run_loop-read :
    (answers : List (Transfer × Bool)) → run_loop read_loop tt answers ≡ read answers
unfolding run_loop read_loop receive read
run_loop-read [] = refl
run_loop-read ((failed, success) ∷ rest) = refl
run_loop-read ((moved (suc n), success) ∷ rest) = refl
run_loop-read ((moved zero, success) ∷ rest) = ground (arith, run_loop-read rest)
run_loop-read ((would_block, success) ∷ rest) = ground (arith, run_loop-read rest)

-- What `write` gives, behind the bytes that went out before, is what its loop gives, if the loop returns.
pub run_loop-write :
    (text out : Bytes) (sent : ℕ) (answers : List (Transfer × Bool))
    → sent < length text
    → run_loop (write_loop text) (out, sent) answers
      ≡ Option.map (λ r. (out ++ (write text sent answers).0, r)) (write text sent answers).1
unfolding run_loop write_loop send write
run_loop-write text out sent [] h = ground (arith, h)
run_loop-write text out sent ((answer, success) ∷ rest) h =
    elim (Bool-cases (ltb (sent + taken answer) (length text))) [
      | inl more ↦
          let now = take (taken answer) (drop sent text) in
          let next =
            run_loop-write text (out ++ now) (sent + taken answer) rest (ground (arith, more)) in
          let joined = append_assoc out now (write text (sent + taken answer) rest).0 in
          ground (arith, more, h, append-nil out, next, joined)
      | inr whole ↦ ground (arith, whole, h, append-nil out)
    ]

pub run_loop-read_from :
    (remote : Endpoint) (answers : List (Transfer × Storage × Bool))
    → run_loop (read_from_loop remote) tt (map (λ a. ((a.0, a.1), a.2)) answers)
      ≡ Option.map (λ r. (r, (read_from remote answers).1)) (read_from remote answers).0
unfolding run_loop read_from_loop receive_from read_from
run_loop-read_from remote [] = refl
run_loop-read_from remote ((failed, from, success) ∷ rest) = refl
run_loop-read_from remote ((moved (suc n), from, success) ∷ rest) = refl
run_loop-read_from remote ((moved zero, from, success) ∷ rest) =
    ground (arith, run_loop-read_from remote rest)
run_loop-read_from remote ((would_block, from, success) ∷ rest) =
    ground (arith, run_loop-read_from remote rest)

pub run_loop-send_loop :
    (fd : ℕ) (fds : List ℕ) (answers : List (Transfer × Bool))
    → run_loop (write_to_loop fd fds) tt answers
      ≡ Option.map (λ r. (r, (send_loop fd answers fds).1)) (send_loop fd answers fds).0
unfolding run_loop write_to_loop send_to send_loop
run_loop-send_loop fd fds [] = refl
run_loop-send_loop fd fds ((failed, success) ∷ rest) = refl
run_loop-send_loop fd fds ((moved (suc n), success) ∷ rest) = refl
run_loop-send_loop fd fds ((moved zero, success) ∷ rest) =
    ground (arith, run_loop-send_loop fd fds rest)
run_loop-send_loop fd fds ((would_block, success) ∷ rest) =
    ground (arith, run_loop-send_loop fd fds rest)
