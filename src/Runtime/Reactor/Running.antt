-- ===== src/Runtime/Reactor/Running.antt =====
-- basic_reactor.inl: what a round of `run` does not change, and what it adds to the queue.
use cppio.Runtime.Reactor.Loop.{
  list-cases, process_tasks_nil, process_tasks-zero, process_tasks_cons,
}
use mathlib.Core.Option.{some-injective}
use cppio.Runtime.Timer
use cppio.Runtime.Reactor
use cppio.Common.{
  ℕ, zero, suc, List, [], ◌∷◌, ◌++◌, refl, append-nil, append_assoc, true, false, some, ◌≡◌,
  Bool-cases, ◌∙◌, inl, ap, sym, inr,
}
use cppio.Runtime.Reactor.{
  Reactor, Body, Round, process_task, process_tasks, poll_timers, epoll_run, spawn, spawns, sleeps,
  awaits, run, done, wait, settle, perform_all, complete, wake_all, perform, wake, ScheduleType,
  is_waiting, Action,
}
use cppio.Runtime.Reactor.Actions.{wake_all-rest}

running-perform_all :
    (t : ℕ) (acts : List Action) (r : Reactor) → (perform_all t acts r).running ≡ r.running
unfolding perform_all perform spawn
running-perform_all t [] r = refl
running-perform_all t (spawns u ∷ acts) r = running-perform_all t acts (spawn u r)
running-perform_all t (sleeps now delay ∷ acts) r =
    running-perform_all t acts (perform t (sleeps now delay) r)
running-perform_all t (awaits true ∷ acts) r =
    running-perform_all t acts (perform t (awaits true) r)
running-perform_all t (awaits false ∷ acts) r =
    running-perform_all t acts (perform t (awaits false) r)

running-settle : (t : ℕ) (s : ScheduleType) (r : Reactor) → (settle t s r).running ≡ r.running
unfolding settle
running-settle t run r = refl
running-settle t done r = refl
running-settle t wait r = refl

running-process_task :
    (body : Body) (t : ℕ) (r : Reactor) → (process_task body t r).running ≡ r.running
unfolding process_task Reactor.one_step
running-process_task body t r = elim (Bool-cases (is_waiting (r.states t))) [
  | inl waits ↦ rw waits (running-settle t wait r)
  | inr runs ↦ rw runs (running-settle t _ _ ∙ running-perform_all t (body t r).0 r)
]

pub running-process_tasks :
    (fuel : ℕ) (body : Body) (r after : Reactor)
    → process_tasks fuel body r ≡ some after
    → after.running ≡ r.running
running-process_tasks zero body r after h = elim (list-cases r.queue) [
  | inl e ↦
      ap {A = Reactor} (λ s. s.running)
        (some-injective after r (sym h ∙ process_tasks_nil zero body r e))
  | inr (t, rest, e) ↦ absurd (cc (process_tasks-zero body t rest r e, h))
]
running-process_tasks (suc fuel) body r after h = elim (list-cases r.queue) [
  | inl e ↦
      ap {A = Reactor} (λ s. s.running)
        (some-injective after r (sym h ∙ process_tasks_nil (suc fuel) body r e))
  | inr (t, rest, e) ↦
      let popped = record r { queue = rest } in
      running-process_tasks fuel body (process_task body t popped) after
        (sym (process_tasks_cons fuel body t rest r e) ∙ h)
      ∙ running-process_task body t popped
]

running-wake_all : (ts : List ℕ) (r : Reactor) → (wake_all ts r).running ≡ r.running
unfolding wake_all wake
running-wake_all [] r = refl
running-wake_all (t ∷ ts) r = running-wake_all ts (wake t r)

running-epoll_run : (ts : List ℕ) (r : Reactor) → (epoll_run ts r).running ≡ r.running
unfolding epoll_run complete wake
running-epoll_run [] r = refl
running-epoll_run (t ∷ ts) r = running-epoll_run ts (complete t r)

active-epoll_run : (ts : List ℕ) (r : Reactor) → (epoll_run ts r).active ≡ r.active
unfolding epoll_run complete wake
active-epoll_run [] r = refl
active-epoll_run (t ∷ ts) r = active-epoll_run ts (complete t r)

queue-epoll_run : (ts : List ℕ) (r : Reactor) → (epoll_run ts r).queue ≡ r.queue ++ ts
unfolding epoll_run complete wake
queue-epoll_run [] r = sym (append-nil r.queue)
queue-epoll_run (t ∷ ts) r = queue-epoll_run ts (complete t r) ∙ append_assoc r.queue (t ∷ []) ts

queue-wake_all : (ts : List ℕ) (r : Reactor) → (wake_all ts r).queue ≡ r.queue ++ ts
unfolding wake_all wake
queue-wake_all [] r = sym (append-nil r.queue)
queue-wake_all (t ∷ ts) r = queue-wake_all ts (wake t r) ∙ append_assoc r.queue (t ∷ []) ts

-- What a round of `run` has woken when epoll returns.
pub woken_active :
    (round : Round) (r : Reactor)
    → (epoll_run round.events (poll_timers round.now r).0).active ≡ r.active
unfolding poll_timers
woken_active round r =
    active-epoll_run round.events (poll_timers round.now r).0
    ∙ (wake_all-rest (Timer.get_delay round.now r.timers).woken r).0

pub woken_queue :
    (round : Round) (r : Reactor)
    → (epoll_run round.events (poll_timers round.now r).0).queue
      ≡ r.queue ++ ((Timer.get_delay round.now r.timers).woken ++ round.events)
unfolding poll_timers
woken_queue round r =
    let due = (Timer.get_delay round.now r.timers).woken in
    queue-epoll_run round.events (poll_timers round.now r).0
    ∙ ap (λ q. q ++ round.events) (queue-wake_all due r)
    ∙ append_assoc r.queue due round.events

pub running-woken :
    (round : Round) (r : Reactor)
    → (epoll_run round.events (poll_timers round.now r).0).running ≡ r.running
unfolding poll_timers
running-woken round r =
    running-epoll_run round.events (poll_timers round.now r).0
    ∙ running-wake_all (Timer.get_delay round.now r.timers).woken r
