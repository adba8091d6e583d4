-- ===== src/Runtime/Reactor.antt =====
-- cppio/basic_task.cpp, sleep.cpp, impl/abstract_reactor.{cpp,inl}, impl/basic_reactor.inl and
-- impl/posix/epoll.cpp: the reactor with one worker. The body of a task is a parameter: what its
-- coroutine does when it is resumed, up to the next suspension, and whether it has then returned.
-- `m_lock` guards each access to the queue and to the active set, which is one step here.
pub mod Actions
pub mod Tracking
pub mod Loop
pub mod Sleep
pub mod Lost
pub mod Frame
pub mod Current
pub mod Running
pub mod Fairness
use cppio.Common.{
  ℕ, zero, suc, ◌*◌, ◌^◌, Bool, true, false, ◌&&◌, Option, none, some, List, [], ◌∷◌, ◌++◌, ◌==◌,
  if◌then◌else◌,
}
use cppio.Runtime.Sets.{contains, insert, erase, update}
use cppio.Runtime.Timer
use cppio.Runtime.Timer.{Pool, Delay}

pub data ScheduleType : Type 0 where
  done run wait : ScheduleType

pub record Reactor : Type 0 where
  -- `m_tasks`, front first
  pub queue : List ℕ
  -- `m_active_tasks`
  pub active : List ℕ
  pub timers : Pool
  -- the tasks whose `basic_overlapped` is registered with epoll
  pub interest : List ℕ
  -- `basic_task::m_state` of each task
  pub states : ℕ → ScheduleType
  pub running : Bool

-- basic_task

unfoldable pub task_wait : ℕ → Reactor → Reactor
task_wait t r = record r { states = update r.states t wait }

unfoldable pub cancel_wait : ℕ → Reactor → Reactor
cancel_wait t r = record r { states = update r.states t run }

unfoldable pub is_waiting : ScheduleType → Bool
is_waiting wait = true
is_waiting _ = false

-- abstract_reactor

unfoldable pub schedule : ℕ → Reactor → Reactor
schedule t r = record r { queue = r.queue ++ t ∷ [] }

-- A new task has the state `kRun`.
unfoldable pub spawn : ℕ → Reactor → Reactor
spawn t r = record r {
  queue = r.queue ++ t ∷ [];
  active = insert t r.active;
  states = update r.states t run;
}

unfoldable pub start_timer : ℕ → ℕ → ℕ → Reactor → Reactor
start_timer now delay t r = record r { timers = Timer.add now delay t r.timers }

unfoldable pub wake : ℕ → Reactor → Reactor
wake t r = record r { queue = r.queue ++ t ∷ []; states = update r.states t run }

unfoldable pub wake_all : List ℕ → Reactor → Reactor
wake_all [] r = r
wake_all (t ∷ ts) r = wake_all ts (wake t r)

-- `m_timers.get_delay()`: the due tasks are woken, and the time to the next timer is returned.
unfoldable pub poll_timers : ℕ → Reactor → Reactor × ℕ
poll_timers now r =
    let d = Timer.get_delay now r.timers in
    (record (wake_all d.woken r) { timers = d.left }, d.wait_time)

-- epoll

-- `EPOLLONESHOT`: an event takes the registration away.
unfoldable pub complete : ℕ → Reactor → Reactor
complete t r = wake t (record r { interest = erase t r.interest })

-- The events that `epoll_wait` returned, first to last.
unfoldable pub epoll_run : List ℕ → Reactor → Reactor
epoll_run [] r = r
epoll_run (t ∷ events) r = epoll_run events (complete t r)

unfoldable pub add_for_read : ℕ → Reactor → Reactor
add_for_read t r = record r { interest = insert t r.interest }

-- What a coroutine does before it suspends: it spawns a task, sleeps (sleep.cpp), or waits for a
-- descriptor, for which `epoll_ctl` may fail; the callers do not look at its result.
pub data Action : Type 0 where
  spawns : (u : ℕ) → Action
  sleeps : (now delay : ℕ) → Action
  awaits : (registered : Bool) → Action

unfoldable pub perform : ℕ → Action → Reactor → Reactor
unfolding spawn start_timer task_wait add_for_read
perform t (spawns u) r = spawn u r
perform t (sleeps now delay) r = start_timer now delay t (task_wait t r)
perform t (awaits registered) r =
    if registered then add_for_read t (task_wait t r) else task_wait t r

unfoldable pub perform_all : ℕ → List Action → Reactor → Reactor
perform_all t [] r = r
perform_all t (a ∷ as') r = perform_all t as' (perform t a r)

-- What a task does when it is resumed in a state of the reactor, and whether it has then returned.
abbrev pub Body : Type 0
Body = ℕ → Reactor → List Action × Bool

-- The answer of `one_step`: `kDone` for a coroutine that has returned, and else its state.
unfoldable pub one_step : Body → ℕ → Reactor → Reactor × ScheduleType
one_step body t r =
    let (actions, returned) = body t r in
    let after = perform_all t actions r in (after, if returned then done else after.states t)

-- What a round of `process_tasks` does with the answer.
unfoldable pub settle : ℕ → ScheduleType → Reactor → Reactor
settle t run r = record r { queue = r.queue ++ t ∷ [] }
settle t done r = record r { active = erase t r.active }
settle t wait r = r

-- One round, on the task at the front of the queue. A task that waits is not resumed.
unfoldable pub process_task : Body → ℕ → Reactor → Reactor
process_task body t r =
    let (after, result) = one_step body t r in
    if is_waiting (r.states t) then settle t wait r else settle t result after

-- `none` if the fuel is spent before the queue is empty.
unfoldable pub process_tasks : ℕ → Body → Reactor → Option Reactor
process_tasks zero body r = elim r.queue [ [] ↦ some r | t ∷ rest ↦ none ]
process_tasks (suc fuel) body r = elim r.queue [
  | [] ↦ some r
  | t ∷ rest ↦ process_tasks fuel body (process_task body t (record r { queue = rest }))
]

abbrev pub one_second : ℕ
one_second = 1000000000

abbrev pub is_empty {ℓ} : {A : Type ℓ} → List A → Bool
is_empty [] = true
is_empty (x ∷ xs) = false

-- The time for which `run` lets epoll block, in nanoseconds.
unfoldable pub wait_for : List ℕ → ℕ → ℕ
wait_for queue delay = if is_empty queue && delay == 0 then one_second else delay

-- What the outside gives one round of `run`: the clock, and the events that epoll returns.
pub record Round : Type 0 where
  pub now : ℕ
  pub events : List ℕ

-- `run` over the rounds that the outside gives; each round's `process_tasks` has the given fuel. The
-- loop ends when no task is active, or behind epoll when the reactor was stopped.
unfoldable pub run_rounds : ℕ → Body → List Round → Reactor → Option Reactor
run_rounds fuel body [] r = some r
run_rounds fuel body (round ∷ rounds) r =
    let polled = (poll_timers round.now r).0 in
    let woken = epoll_run round.events polled in
    let processed = process_tasks fuel body woken in
    elim r.active [
      | [] ↦ some r
      | t ∷ rest ↦ elim woken.running [
        | false ↦ some woken
        | true ↦ elim processed [ none ↦ none | some after ↦ run_rounds fuel body rounds after ]
      ]
    ]
