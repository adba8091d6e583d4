-- ===== src/Tests/Scheduling.antt =====
-- Runs of timer_pool.cpp, basic_reactor.inl, sleep.cpp and epoll.cpp.
use cppio.Runtime.Reactor.Fairness.{Extends, process_tasks-Extends}
use cppio.Common.{
  ◌+◌, ◌≡◌, refl, arith, true, false, [], ◌∷◌, ℕ, if◌then◌else◌, ◌==◌, leb, not, List, suc,
}
use cppio.Runtime.Sets.{contains}
use cppio.Runtime.Timer
use cppio.Runtime.Timer.{Pool, get_delay}
use cppio.Runtime.Timer.Due.{IsOrdered, TakesDue, get_delay-TakesDue}
use cppio.Runtime.Reactor.{
  perform, poll_timers, Reactor, run, Body, sleeps, spawn, process_task, process_tasks, perform,
  poll_timers, is_waiting,
}
use cppio.Runtime.Reactor.Actions.{IsTracked, AllSafe}
use cppio.Runtime.Reactor.Tracking.{Reach, here, next, spawned, processed, Reach-IsTracked, popped}
use cppio.Runtime.Reactor.Lost
use cppio.Runtime.Reactor.Sleep.{poll_timers-sleeps}
use cppio.Runtime.Task

abbrev pool : Pool
pool = (10, 1) ∷ (20, 2) ∷ []

pool-IsOrdered : IsOrdered pool
pool-IsOrdered = ((omega arith, tt), (tt, tt))

get_delay-TakesDue_example : TakesDue 15 pool (get_delay 15 pool)
get_delay-TakesDue_example = get_delay-TakesDue 15 pool pool-IsOrdered

abbrev idle : Reactor
idle = record {
  queue = [];
  active = [];
  timers = [];
  interest = [];
  states = (λ t. run);
  running = true;
}

-- A task that sleeps for ten, and one that returns.
abbrev sleeper : Body
sleeper t r = (sleeps 5 10 ∷ [], false)

abbrev returns : Body
returns t r = ([], true)

abbrev yields : Body
yields t r = ([], false)

idle-IsTracked : IsTracked 1 idle
unfolding contains is_waiting
idle-IsTracked = ((λ act w. absurd (cc act)), (λ act w. absurd (cc act)))

sleeper_path : Reach sleeper idle (process_task sleeper 1 (popped [] (spawn 1 idle)))
sleeper_path = next (next here (spawned 1)) (processed 1 [] front safe)
  where
    front : (spawn 1 idle).queue ≡ 1 ∷ []
    front = unfold spawn in refl

    safe :
        is_waiting ((spawn 1 idle).states 1) ≡ false
        → AllSafe 1 (sleeps 5 10 ∷ []) (popped [] (spawn 1 idle))
    safe h = unfold spawn in (tt, tt)

Reach-IsTracked_example : IsTracked 1 (process_task sleeper 1 (popped [] (spawn 1 idle)))
Reach-IsTracked_example = Reach-IsTracked 1 sleeper_path idle-IsTracked

abbrev queued : Reactor
queued = record idle { queue = 1 ∷ 2 ∷ []; active = 1 ∷ 2 ∷ [] }

-- Task 1 is resumed with a timer of task 2 at 15, and sleeps from 5 for 10.
abbrev taken : Reactor
taken = record idle { active = 1 ∷ 2 ∷ []; timers = (15, 2) ∷ [] }

lost_path :
    Lost.Reach sleeper 1
      (perform 1 (sleeps 5 10) taken)
      (poll_timers 40 (perform 1 (sleeps 5 10) taken)).0
lost_path = Lost.next Lost.here (Lost.polled 40)

taken_flags :
    (contains taken.active 1 ≡ true)
    × (contains taken.queue 1 ≡ false)
    × (Timer.has taken.timers 1 ≡ false)
    × (contains taken.interest 1 ≡ false)
unfolding contains Timer.has
taken_flags = (refl, refl, refl, refl)

sleep-IsLost_example : Lost.IsLost 1 (poll_timers 40 (perform 1 (sleeps 5 10) taken)).0
sleep-IsLost_example =
    Lost.sleep-IsLost sleeper 1 2 5 10 [] [] taken
      (poll_timers 40 (perform 1 (sleeps 5 10) taken)).0 taken_flags.0 taken_flags.1 taken_flags.2
      taken_flags.3 refl (tt, tt) lost_path

-- Coroutine 2 returns to coroutine 1, which awaits the task of coroutine 3.
abbrev coroutines : ℕ → ℕ → Task.Resumed × ℕ
coroutines c w = if c == 1 then (Task.called 3, w) else (Task.returned, w)

chain_run : Task.one_step ℕ (λ w. run) coroutines (2 ∷ 1 ∷ []) 0 ≡ (3 ∷ 1 ∷ [], 0, run)
unfolding Task.one_step Task.link is_waiting
chain_run = refl

abbrev resting : Reactor
resting = record idle { active = 1 ∷ 2 ∷ []; timers = (20, 2) ∷ [] }

resting_flags : (Timer.has resting.timers 1 ≡ false) × (contains resting.queue 1 ≡ false)
unfolding contains Timer.has
resting_flags = (refl, refl)

poll_timers-sleeps_example :
    (contains (poll_timers 15 (perform 1 (sleeps 5 10) resting)).0.queue 1 ≡ leb (5 + 10) 15)
    × (is_waiting ((poll_timers 15 (perform 1 (sleeps 5 10) resting)).0.states 1)
        ≡ not (leb (5 + 10) 15))
poll_timers-sleeps_example =
    poll_timers-sleeps 1 5 10 15 resting (tt, tt) ((λ e. omega (arith, e)), tt) resting_flags.0
      resting_flags.1

abbrev crowded : Reactor
crowded = record idle { queue = 1 ∷ 2 ∷ 3 ∷ []; active = 1 ∷ 2 ∷ 3 ∷ [] }

process_tasks-Extends_example :
    (s : Reactor) × (rest : List ℕ) × (s.queue ≡ 2 ∷ rest)
    × Extends (3 ∷ []) rest
    × ((fuel : ℕ)
        → process_tasks (1 + suc fuel) returns crowded
          ≡ process_tasks fuel returns (process_task returns 2 (popped rest s)))
process_tasks-Extends_example = process_tasks-Extends returns 2 (1 ∷ []) (3 ∷ []) crowded refl
