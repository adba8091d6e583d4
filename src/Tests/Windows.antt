-- ===== src/Tests/Windows.antt =====
-- Runs of network/win32 and of the completion ports.
use cppio.Common.{
  ℕ, ◌≡◌, ◌+◌, ◌*◌, ◌≤◌, ◌<◌, ◌↔◌, refl, arith, true, false, [], ◌∷◌, List, map, none, some, ◌^◌,
}
use cppio.Common.Text.{codes}
use cppio.Runtime.Sets.{contains, update}
use cppio.Runtime.Timer.{has}
use cppio.Runtime.Reactor.{Reactor, Body, run, wait}
use cppio.Runtime.Reactor.Lost.{IsLost, here}
use cppio.Runtime.Task
use cppio.Runtime.Task.{Resumed, returned}
use cppio.Runtime.Ports.{Event, Port, for_read, epoll_timeout, iocp_timeout, one_millisecond}
use cppio.Runtime.Ports.Timeouts.{epoll_timeout_bound}
use cppio.Network.Windows.{
  Completion, ConnectCalls, connect, create, bind, accept, completes, write, started, reset,
}
use cppio.Network.Windows.Handles.{Answers, LeavesOpen, connect-Answers}
use cppio.Network.Windows.Stuck.{reads, refused_state, refused-IsLost}

abbrev calls : ConnectCalls
calls = record { sock = some 5; bound = true; extension = true; started = true }

abbrev ended : Completion
ended = record { success = false; bytes = 0 }

-- A connection that fails, and a client that resets its connection before another is accepted.
connect-Answers_example :
    Answers
      (some 5)
      (3 ∷ [])
      (connect calls (some ended) (3 ∷ [])).answer
      (connect calls (some ended) (3 ∷ [])).handles
    × Answers
        (some 5)
        (3 ∷ [])
        (accept (some 5) (reset ∷ started true ∷ []) (3 ∷ [])).0.answer
        (accept (some 5) (reset ∷ started true ∷ []) (3 ∷ [])).0.handles
    × LeavesOpen (some 5) true (3 ∷ []) (create (some 5) true (3 ∷ []))
    × LeavesOpen (some 5) true (3 ∷ []) (bind (some 5) true (3 ∷ []))
connect-Answers_example =
    connect-Answers calls (some ended) (reset ∷ started true ∷ []) (3 ∷ [])
      (unfold contains in refl)

abbrev halves : List Completion
halves =
    record { success = true; bytes = 2 }
    ∷ record { success = true; bytes = 1 }
    ∷ record { success = true; bytes = 1 }
    ∷ []

write_run : (write (codes "abcd") 0 (map completes halves)).0 ≡ codes "abcd"
unfolding write
write_run = refl

abbrev ones : List Completion
ones =
    record { success = true; bytes = 1 }
    ∷ record { success = true; bytes = 1 }
    ∷ record { success = true; bytes = 1 }
    ∷ []

abbrev idle : Reactor
idle = record {
  queue = [];
  active = 7 ∷ [];
  timers = [];
  interest = [];
  states = (λ t. run);
  running = true;
}

-- The coroutine 1 reads for the coroutine 2, and is refused.
abbrev refuses_read : ℕ → Reactor → Resumed × Reactor
refuses_read curr r = (returned, record r { states = update r.states 7 (refused_state reads) })

abbrev returns : Body
returns t r = ([], true)

refused-IsLost_example :
    let step = Task.one_step Reactor (λ u. u.states 7) refuses_read (1 ∷ 2 ∷ []) idle in
    (step.0 ≡ 2 ∷ []) × (step.2 ≡ wait) × IsLost 7 step.1
refused-IsLost_example =
    refused-IsLost reads returns 7 1 2 [] idle _ refuses_read refl (unfold contains in refl)
      (unfold contains in refl) (unfold has in refl) (unfold contains in refl) refl here

epoll_timeout_bound_example :
    (ms : ℕ) × (iocp_timeout 2500000 ≡ some ms)
    × (ms * one_millisecond ≤ 2500000)
    × (2500000 < (ms + 1) * one_millisecond)
    × ((epoll_timeout 2500000 ≡ some ms) ↔ (2500000 < 2 ^ 31 * one_millisecond))
    × ((epoll_timeout 2500000 ≡ none) ↔ (2 ^ 31 * one_millisecond ≤ 2500000))
epoll_timeout_bound_example = epoll_timeout_bound 2500000 (omega arith)

-- The number of milliseconds wraps around: a time of 2 ^ 32 of them does not make epoll block at all.
wraps_run : epoll_timeout (2 ^ 32 * one_millisecond) ≡ some 0
unfolding epoll_timeout
wraps_run = refl

abbrev hung_up : Event
hung_up = record {
  operation = 1;
  events = record for_read { readable = false; failed = false; one_shot = false };
}

abbrev port : Port
port = record {
  reactor = idle;
  operations = (λ o. record { task = 7; success = false; bytes = 0 });
}
