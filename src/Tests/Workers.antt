-- ===== src/Tests/Workers.antt =====
-- Runs of several workers, of futures and of the ports.
use cppio.Common.{ℕ, ◌≡◌, refl, arith, true, false, [], ◌∷◌, inl, if◌then◌else◌, ◌==◌}
use cppio.Runtime.Sets.{contains, update}
use cppio.Runtime.Reactor
use cppio.Runtime.Reactor.{Reactor, run, wait, is_waiting, awaits, process_task, schedule, settle}
use cppio.Runtime.Reactor.Tracking.{popped}
use cppio.Runtime.Workers.{System, Body, Reach, outside, waits, registers}
use cppio.Runtime.Workers.{
  starts, goes, pop, holds, resumes, access, enters, accesses, takes, next, here,
}
use cppio.Runtime.Reactor.{poll_timers, complete, task_wait}
use cppio.Runtime.Workers.Found.{registers_later, IsSound, IsPunctualPath}
use cppio.Runtime.Workers.Stranded.{Reach-IsSound}
use cppio.Runtime.Workers.Races.{
  ready, IsStranded, IsInside, registers_first-IsStranded, waits_first-IsInside,
}
use cppio.Runtime.Workers.Alone.{Alone, accessed}
use cppio.Runtime.Workers.Rounds.{process_task-Alone}
use cppio.Runtime.Task.Promise.{initial, return_value, returns, terminates}
use cppio.Runtime.Task
use cppio.Runtime.Task.{returned, suspended}
use cppio.Runtime.Task.Bodies.{Script, resume, body_of, one_step-unwind}
use cppio.Runtime.Reactor.{perform}
use cppio.Network.Socket.Waits.{read_waits, accept_waits}
use cppio.Runtime.Task.Futures.{get_all, get-return_value}

abbrev empty : Reactor
empty = record {
  queue = [];
  active = 7 ∷ [];
  timers = [];
  interest = [];
  states = (λ t. run);
  running = true;
}

-- A coroutine that reads, and one that accepts.
abbrev reading : Body
reading t r = (read_waits true, false)

abbrev accepting : Body
accepting t r = (accept_waits true, false)

registers_first-IsStranded_example :
    (s : System) × Reach accepting (ready 7 empty) s × IsStranded 7 s
registers_first-IsStranded_example =
    registers_first-IsStranded 7 empty accepting (λ s. unfold accept_waits in refl)

reading_run : (s : Reactor) → reading 7 s ≡ (waits ∷ registers true ∷ [], false)
unfolding read_waits
reading_run s = refl

waits_first-IsInside_example :
    (s : System) × Reach reading (ready 7 empty) s × IsInside 7 0 s × IsInside 7 1 s
waits_first-IsInside_example = waits_first-IsInside 7 empty reading reading_run

abbrev sound : System
sound = ready 7 empty

sound-IsSound : IsSound sound
unfolding contains update is_waiting
sound-IsSound = (
  (λ a act. ((λ e. absurd (ground (arith, e))), (λ e. inl (ground (arith, act))))),
  (λ worker. tt),
)

-- A coroutine that sleeps.
abbrev sleeping : Body
sleeping t r = (waits ∷ starts 5 10 ∷ [], false)

abbrev asleep : System
asleep =
    let taken = goes 0 (pop [] sound.reactor) (holds 7) sound in
    let entered = goes 0 taken.reactor (resumes 7 (waits ∷ starts 5 10 ∷ []) false) taken in
    let waiting =
      goes 0 (access 7 waits entered.reactor) (resumes 7 (starts 5 10 ∷ []) false) entered in
    goes 0 (access 7 (starts 5 10) waiting.reactor) (resumes 7 [] false) waiting

falls_asleep : (path : Reach sleeping sound asleep) × IsPunctualPath path
unfolding goes update pop access task_wait is_waiting
falls_asleep = (
  next 0
      (next 0 (next 0 (next 0 here (takes 7 [] refl refl)) (enters 7 _ false refl refl refl))
        (accesses 7 waits _ false refl))
      (accesses 7 (starts 5 10) [] false refl),
  ((((tt, tt), tt), tt), tt),
)

Reach-IsSound_example : IsSound asleep
Reach-IsSound_example =
    Reach-IsSound sleeping sound asleep (λ t r. unfold registers_later in (refl, tt)) sound-IsSound
      falls_asleep.0 falls_asleep.1

abbrev reads_once : Reactor.Body
reads_once t r = (awaits true ∷ [], false)

-- Task 7 is ready, task 8 is registered, and task 9 has a timer.
abbrev busy : System
busy = record {
  reactor = record empty { queue = 7 ∷ []; interest = 8 ∷ []; timers = (10, 9) ∷ [] };
  places = (λ worker. outside);
}

process_task-Alone_example :
    Alone (accessed reads_once) 0 busy (poll_timers 15 busy.reactor).0 outside
    × Alone (accessed reads_once) 0 busy (complete 8 busy.reactor) outside
    × Alone
        (accessed reads_once)
        0
        busy
        (process_task reads_once 7 (popped [] busy.reactor))
        outside
process_task-Alone_example =
    process_task-Alone reads_once 0 15 7 8 [] busy refl (unfold contains in refl) refl

get-return_value_example :
    get_all {U = ℕ} 0 (λ n. 0) (1 ∷ 1 ∷ 2 ∷ []) (λ copy. true) (return_value 42 initial)
    ≡ returns 42 ∷ returns 0 ∷ terminates ∷ []
get-return_value_example =
    get-return_value 0 (λ n. 0) 42 1 1 (2 ∷ []) (λ copy. true) refl (unfold update in refl)

-- Coroutine 1 makes its task wait for a descriptor and returns to coroutine 2.
abbrev script : Script
script curr r = if curr == 1 then (awaits true ∷ [], returned) else ([], suspended)

one_step-unwind_example :
    let step = Task.one_step Reactor (λ u. u.states 7) (resume 7 script) (1 ∷ 2 ∷ []) empty in
    (step.1, step.2) ≡ Reactor.one_step (body_of script (1 ∷ 2 ∷ [])) 7 empty
one_step-unwind_example = one_step-unwind 7 script (1 ∷ 2 ∷ []) empty
