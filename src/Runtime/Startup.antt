-- ===== src/Runtime/Startup.antt =====
-- cppio/cppio.cpp: the start of the program and its end.
use cppio.Common.{ℕ, Bool, true, false, Option, none, some, List, [], ◌≡◌, ◌∷◌, refl}
use cppio.Runtime.Reactor
use cppio.Runtime.Reactor.{run, Reactor, Body, Round, run_rounds}

-- What the constructor of `basic_reactor` leaves, before its workers go on.
abbrev pub made : Reactor
made = record {
  queue = [];
  active = [];
  timers = [];
  interest = [];
  states = (λ t. run);
  running = true;
}

-- `s_reactor`, and the number of the workers that are started with it; `none` is the null pointer.
pub record Runtime : Type 0 where
  pub reactor : Option Reactor
  pub workers : ℕ

abbrev pub initial : Runtime
initial = record { reactor = none; workers = 0 }

-- `initialize`; on Windows `WSAStartup` may fail, and on POSIX `started` is true.
unfoldable pub initialize : (started : Bool) → ℕ → Runtime → Bool × Runtime
initialize false worker_count s = (false, s)
initialize true worker_count s = (true, record { reactor = some made; workers = worker_count })

-- `spawn`, for a new task with the number `t`; `get` asserts that there is a reactor.
unfoldable pub spawn : ℕ → Runtime → Option Runtime
spawn t s = elim s.reactor [
  | none ↦ none
  | some r ↦ some (record s { reactor = some (Reactor.spawn t r) })
]

-- `wait_for_all`; `get` asserts that there is a reactor, so `none` is the end of the process. The second `none`
-- is fuel that is spent.
unfoldable pub wait_for_all : ℕ → Body → List Round → Runtime → Option (Option Reactor)
wait_for_all fuel body rounds s = elim s.reactor [
  | none ↦ none
  | some r ↦ some (run_rounds fuel body rounds r)
]

-- A worker, or `wait_for_all`, that comes to the loop of `run` while no task is active ends at once, whatever the
-- rounds would bring and whatever the state. So the workers that `initialize` starts end without having run a
-- task, if they come to their loop before the first is spawned.
run_rounds_idle :
    (fuel : ℕ) (body : Body) (rounds : List Round) (worker_count : ℕ) (s : Runtime) (r : Reactor)
    → r.active ≡ []
    → (run_rounds fuel body rounds r ≡ some r)
      × (wait_for_all fuel body rounds (initialize true worker_count s).1 ≡ some (some made))
unfolding run_rounds initialize wait_for_all
run_rounds_idle fuel body [] worker_count s r e = (refl, refl)
run_rounds_idle fuel body (round ∷ rounds) worker_count s r e = (rw e refl, refl)
