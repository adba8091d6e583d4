-- ===== src/Runtime/Reactor/Current.antt =====
-- cppio/impl/basic_reactor.{hpp,inl}: the thread-local pointers `s_current_reactor` and `s_current_task`, which the
-- coroutines and `wake` read, and the destructor, which stops the reactor.
use cppio.Runtime.Reactor.Loop.{
  list-cases, process_tasks_nil, process_tasks-zero, process_tasks_cons,
}
pub mod Runs
use mathlib.Core.Option
use cppio.Runtime.Timer
use mathlib.Core.Option.{some-injective}
use cppio.Common.{
  ℕ, zero, suc, Bool, true, false, Option, none, some, List, [], ◌∷◌, refl, ◌≡◌, Bool-cases, inl,
  inr, ◌∙◌, ap, sym, ◌++◌,
}
use cppio.Runtime.Reactor
use cppio.Runtime.Reactor.{
  Reactor, Body, Round, process_task, process_tasks, poll_timers, epoll_run, run_rounds,
  perform_all, complete, wake_all, settle, perform, wake, is_waiting, ScheduleType, spawn, run,
  wait, Action, done, spawns, sleeps, awaits,
}

-- The pointers of one thread: the number of a reactor, and a task.
pub record Thread : Type 0 where
  pub reactor : Option ℕ
  pub task : Option ℕ

-- `get_current_task` and `get_current`
unfoldable pub get_current_task : Thread → Option ℕ
get_current_task thread = thread.task

unfoldable pub get_current : Thread → Option ℕ
get_current thread = thread.reactor

-- What a task does, which may depend on the pointers of the thread that resumes it.
abbrev pub LocalBody : Type 0
LocalBody = Thread → Body

-- One round of `process_tasks`, which keeps the old pointer and puts it back.
unfoldable pub process_current : LocalBody → ℕ → Thread × Reactor → Thread × Reactor
process_current body t (thread, r) =
    let old = thread.task in
    let inside = record thread { task = some t } in
    (record inside { task = old }, process_task (body inside) t r)

-- `process_tasks`; `none` if the fuel is spent before the queue is empty.
unfoldable pub process_all : ℕ → LocalBody → Thread × Reactor → Option (Thread × Reactor)
process_all zero body (thread, r) = elim r.queue [ [] ↦ some (thread, r) | t ∷ rest ↦ none ]
process_all (suc fuel) body (thread, r) = elim r.queue [
  | [] ↦ some (thread, r)
  | t ∷ rest ↦ process_all fuel body (process_current body t (thread, record r { queue = rest }))
]

-- `run` of the reactor with the number `this`, over the rounds that the outside gives. Where it ends because the
-- reactor was stopped, the pointer is not put back.
-- No other thread stops the reactor within a run here: `m_running` is that of the state with which the run begins.
unfoldable pub run_current :
    ℕ → ℕ → LocalBody → List Round → Thread × Reactor → Option (Thread × Reactor)
run_current this fuel body [] (thread, r) = some (thread, r)
run_current this fuel body (round ∷ rounds) (thread, r) =
    let old = thread.reactor in
    let inside = record thread { reactor = some this } in
    let polled = (poll_timers round.now r).0 in
    let woken = epoll_run round.events polled in
    let processed = process_all fuel body (inside, woken) in
    elim r.active [
      | [] ↦ some (thread, r)
      | t ∷ rest ↦ elim woken.running [
        | false ↦ some (inside, woken)
        | true ↦ elim processed [
          | none ↦ none
          | some (inside', after) ↦
              run_current this fuel body rounds (record inside' { reactor = old }, after)
        ]
      ]
    ]

-- `~basic_reactor`
unfoldable pub stop : Reactor → Reactor
stop r = record r { running = false }
