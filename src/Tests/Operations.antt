-- ===== src/Tests/Operations.antt =====
-- Runs of reads and writes by the scheduler.
use mathlib.Core.Option
use cppio.Common.{ℕ, ◌≡◌, refl, arith, true, false, [], ◌∷◌, List, Bool, value, some, Outcome, ◌++◌}
use cppio.Common.Text.{Bytes, codes}
use cppio.Runtime.Sets.{contains}
use cppio.Runtime.Timer.{has}
use cppio.Runtime.Reactor.{run, is_waiting, Body}
use cppio.Runtime.Ports.{Port}
use cppio.Network.Socket.{Transfer, moved, would_block, read, write}
use cppio.Network.Socket.Loops.{run_loop, read_loop, write_loop}
use cppio.Network.Socket.Loops
use cppio.Network.Socket.Scheduled.{Session, Reach, here, next, resumed, started, resume}
use cppio.Network.Socket.Scheduled.Served.{IsAt}
use cppio.Network.Socket.Scheduled.Outcomes.{outcome}
use cppio.Network.Socket.Scheduled.Finishes.{CanReturn, started-CanReturn}
use cppio.Network.Socket.Scheduled.Reads.{IsNew, Reach-Reads, Reach-Writes}

-- Task 1 is new, and its operation is number 9; task 2 has nothing to do.
abbrev fresh_port : Port
fresh_port = record {
  reactor = record {
    queue = 1 ∷ [];
    active = 1 ∷ 2 ∷ [];
    timers = [];
    interest = [];
    states = (λ t. run);
    running = true;
  };
  operations = (λ i. record { task = 2; success = false; bytes = 0 });
}

abbrev idle_body : Body
idle_body t r = ([], true)

abbrev answered : List (Transfer × Bool)
answered = (would_block, true) ∷ (moved 0, true) ∷ (moved 3, true) ∷ []

started-CanReturn_example :
    CanReturn read_loop 1 9 idle_body (value 3) answered (started tt fresh_port)
started-CanReturn_example =
    started-CanReturn read_loop 1 9 idle_body tt answered (value 3) fresh_port fresh returned
  where
    fresh :
        (fresh_port.reactor.queue ≡ 1 ∷ [])
        × (contains fresh_port.reactor.active 1 ≡ true)
        × (is_waiting (fresh_port.reactor.states 1) ≡ false)
        × (has fresh_port.reactor.timers 1 ≡ false)
    fresh = unfold contains is_waiting has in (refl, refl, refl, refl)

    returned : run_loop read_loop tt answered ≡ some (value 3)
    returned = unfold run_loop read_loop Loops.receive in refl

is_new : IsNew 1 fresh_port
unfolding contains is_waiting has
is_new = (refl, refl, refl, refl)

-- The first call of a read finds nothing.
abbrev waiting_read : Session Transfer Unit (Outcome ℕ)
waiting_read = resume read_loop 1 9 [] would_block true (started tt fresh_port)

reached_read : Reach read_loop 1 9 idle_body (started tt fresh_port) waiting_read
reached_read = next here (resumed [] would_block true refl (unfold is_waiting in refl))

Reach-Reads_example :
    IsAt read_loop 1 9 waiting_read
    × ((rest : List (Transfer × Bool))
        → read (waiting_read.history ++ rest) ≡ outcome read_loop 1 9 waiting_read.point rest)
Reach-Reads_example = Reach-Reads idle_body 1 9 fresh_port waiting_read is_new reached_read

-- The first call of a write takes one byte.
abbrev waiting_write : Session Transfer (Bytes × ℕ) (Bytes × Outcome ℕ)
waiting_write = resume (write_loop (codes "ab")) 1 9 [] (moved 1) true (started ([], 0) fresh_port)

reached_write :
    Reach (write_loop (codes "ab")) 1 9 idle_body (started ([], 0) fresh_port) waiting_write
reached_write = next here (resumed [] (moved 1) true refl (unfold is_waiting in refl))

Reach-Writes_example :
    IsAt (write_loop (codes "ab")) 1 9 waiting_write
    × ((rest : List (Transfer × Bool))
        → let (out, answer) = write (codes "ab") 0 (waiting_write.history ++ rest) in
          Option.map (λ r. (out, r)) answer
          ≡ outcome (write_loop (codes "ab")) 1 9 waiting_write.point rest)
Reach-Writes_example =
    Reach-Writes (codes "ab") idle_body 1 9 fresh_port waiting_write (omega arith) is_new
      reached_write
