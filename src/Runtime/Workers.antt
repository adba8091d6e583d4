-- ===== src/Runtime/Workers.antt =====
-- cppio/impl/basic_reactor.{hpp,inl}, basic_task.cpp, impl/abstract_reactor.cpp, impl/timer_pool.cpp and
-- impl/posix/epoll.cpp with several workers: `basic_reactor` starts one thread for each, which share its fields. A
-- step is one access to what they share: the queue and the active set under `m_lock`, the timers under the lock of
-- their pool, the atomic `m_state` of a task, and a call of epoll. Each worker stands at a place of its own, and any
-- of them may go on at any time. The due timers leave the pool in one step, before their tasks are woken one by
-- one: until then no other worker sees the pool, whose lock `get_delay` holds. What a resumption does is a parameter,
-- which is given when the worker enters the task.
pub mod Found
pub mod Kept
pub mod Stranded
pub mod Races
pub mod Alone
pub mod Rounds
use cppio.Common.{ℕ, ◌≡◌, Bool, true, false, List, [], ◌∷◌, if◌then◌else◌}
use cppio.Runtime.Sets.{contains, update}
use cppio.Runtime.Sets
use cppio.Runtime.Timer
use cppio.Runtime.Reactor.{
  ScheduleType, done, run, wait, Reactor, task_wait, cancel_wait, is_waiting, schedule, spawn,
  add_for_read, settle, start_timer,
}

-- What a coroutine does to what the workers share, one access at a time: `wait`, `cancel_wait`, a call of
-- `add_for_read` or `add_for_write`, which epoll may refuse, `start_timer`, and `spawn`.
pub data Access : Type 0 where
  waits cancels : Access
  registers : (registered : Bool) → Access
  starts : (now delay : ℕ) → Access
  spawns : (u : ℕ) → Access

unfoldable pub access : ℕ → Access → Reactor → Reactor
access t waits r = task_wait t r
access t cancels r = cancel_wait t r
access t (registers registered) r = if registered then add_for_read t r else r
access t (starts now delay) r = start_timer now delay t r
access t (spawns u) r = spawn u r

-- Where a worker stands: outside, with a task that it has taken from the queue and not looked at, inside the
-- task's coroutine with what that still does before it suspends or returns, with the answer of `one_step`, in
-- `get_delay` before `wake`, or inside `wake`, between the write of `m_state` and `schedule`; `later` are the tasks
-- that it wakes after that.
pub data Place : Type 0 where
  outside : Place
  holds : (t : ℕ) → Place
  resumes : (t : ℕ) (rest : List Access) (returned : Bool) → Place
  answers : (t : ℕ) (result : ScheduleType) → Place
  rouses : (t : ℕ) (later : List ℕ) → Place
  wakes : (t : ℕ) (later : List ℕ) → Place

pub record System : Type 0 where
  pub reactor : Reactor
  pub places : ℕ → Place

-- What a task's coroutine does when it is resumed, and whether it has then returned.
abbrev pub Body : Type 0
Body = ℕ → Reactor → List Access × Bool

-- A worker goes on: the reactor that it leaves, and where it then stands.
unfoldable pub goes : ℕ → Reactor → Place → System → System
goes worker r place s = record { reactor = r; places = update s.places worker place }

-- The access to a task that the worker at the front of `process_tasks` takes off the queue.
unfoldable pub pop : List ℕ → Reactor → Reactor
pop rest r = record r { queue = rest }

-- The tasks that are still to be woken by the worker.
abbrev pub rousing : List ℕ → Place
rousing [] = outside
rousing (t ∷ later) = rouses t later

-- `get_delay` takes the due timers out of the pool.
unfoldable pub expire : ℕ → Reactor → Reactor
expire now r = record r { timers = (Timer.get_delay now r.timers).left }

-- The first half of `wake`.
unfoldable pub mark : ℕ → Reactor → Reactor
mark t r = record r { states = update r.states t run }

-- The first half of `wake` for an event of epoll, whose registration is for one event only.
unfoldable pub report : ℕ → Reactor → Reactor
report t r = record r { interest = Sets.erase t r.interest; states = update r.states t run }

-- The steps of one worker.
pub data Step (body : Body) (worker : ℕ) (s : System) : System → Type 0 where
  takes :
      (t : ℕ) (rest : List ℕ)
      → s.places worker ≡ outside
      → s.reactor.queue ≡ t ∷ rest
      → Step body worker s (goes worker (pop rest s.reactor) (holds t) s)
  skips :
      (t : ℕ)
      → s.places worker ≡ holds t
      → is_waiting (s.reactor.states t) ≡ true
      → Step body worker s (goes worker s.reactor outside s)
  enters :
      (t : ℕ) (rest : List Access) (returned : Bool)
      → s.places worker ≡ holds t
      → is_waiting (s.reactor.states t) ≡ false
      → body t s.reactor ≡ (rest, returned)
      → Step body worker s (goes worker s.reactor (resumes t rest returned) s)
  accesses :
      (t : ℕ) (a : Access) (rest : List Access) (returned : Bool)
      → s.places worker ≡ resumes t (a ∷ rest) returned
      → Step body worker s (goes worker (access t a s.reactor) (resumes t rest returned) s)
  leaves :
      (t : ℕ) (returned : Bool)
      → s.places worker ≡ resumes t [] returned
      → Step body worker s
          (goes worker s.reactor (answers t (if returned then done else s.reactor.states t)) s)
  settles :
      (t : ℕ) (result : ScheduleType)
      → s.places worker ≡ answers t result
      → Step body worker s (goes worker (settle t result s.reactor) outside s)
  reports :
      (t : ℕ)
      → s.places worker ≡ outside
      → contains s.reactor.interest t ≡ true
      → Step body worker s (goes worker (report t s.reactor) (wakes t []) s)
  polls :
      (now : ℕ)
      → s.places worker ≡ outside
      → Step body worker s (
          goes worker
            (expire now s.reactor)
            (rousing (Timer.get_delay now s.reactor.timers).woken)
            s)
  marks :
      (t : ℕ) (later : List ℕ)
      → s.places worker ≡ rouses t later
      → Step body worker s (goes worker (mark t s.reactor) (wakes t later) s)
  schedules :
      (t : ℕ) (later : List ℕ)
      → s.places worker ≡ wakes t later
      → Step body worker s (goes worker (schedule t s.reactor) (rousing later) s)

-- The workers go on in any order.
pub data Reach (body : Body) (s : System) : System → Type 0 where
  here : Reach body s s
  next : {u v : System} (worker : ℕ) → Reach body s u → Step body worker u v → Reach body s v
