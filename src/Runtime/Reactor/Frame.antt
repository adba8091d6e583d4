-- ===== src/Runtime/Reactor/Frame.antt =====
-- basic_reactor.inl, sleep.cpp, epoll.cpp: what the reactor keeps of a task, and that the steps of the others leave
-- it as it is.
use cppio.Runtime.Reactor.Tracking.{popped}
use cppio.Runtime.Sets.{contains, update, contains-concat, contains-insert, contains-erase}
use cppio.Runtime.Reactor.{
  perform, poll_timers, spawn, epoll_run, process_task, perform_all, complete, settle, wake,
  ScheduleType, Reactor, one_step, Action, spawns, Body, is_waiting, sleeps, awaits, run, wait,
  done,
}
use cppio.Common.{
  refl, Bool, ℕ, ◌≢◌, List, All, ◌≡◌, ◌+◌, ◌∷◌, arith, false, Bool-cases, inl, ◌∙◌, [], ap, true,
  inr, subst,
}
use cppio.Runtime.Timer
use cppio.Runtime.Timer.{Pool, has}
use cppio.Runtime.Timer.Collision.{get_delay-has}
use cppio.Runtime.Reactor.Actions.{wake_all-states, wake_all-queue, wake_all-rest}

-- Whether a task is active, whether it waits, and whether it is in the queue, has a timer and is registered.
pub record Seen : Type 0 where
  pub active : Bool
  pub waiting : Bool
  pub queued : Bool
  pub timed : Bool
  pub registered : Bool

abbrev pub seen : ℕ → Reactor → Seen
seen a r = record {
  active = contains r.active a;
  waiting = is_waiting (r.states a);
  queued = contains r.queue a;
  timed = has r.timers a;
  registered = contains r.interest a;
}

insert-has_other :
    (when task a : ℕ) (pool : Pool) → a ≢ task → has (Timer.insert when task pool) a ≡ has pool a
unfolding Timer.insert has
insert-has_other when task a [] n = ground (arith, n)
insert-has_other when task a ((w, t) ∷ pool) n =
    ground (arith, insert-has_other when task a pool n, n)

add-has_other :
    (now delay task a : ℕ) (pool : Pool)
    → a ≢ task
    → has (Timer.add now delay task pool) a ≡ has pool a
unfolding Timer.add
add-has_other now delay task a pool n = insert-has_other (now + delay) task a pool n

pub seen-spawn : (u a : ℕ) (r : Reactor) → u ≢ a → seen a (spawn u r) ≡ seen a r
unfolding spawn update
seen-spawn u a r n = ground (arith, n, contains-insert u r.active a, contains-concat r.queue u a)

pub seen-complete : (u a : ℕ) (r : Reactor) → u ≢ a → seen a (complete u r) ≡ seen a r
unfolding complete wake update
seen-complete u a r n =
    ground (arith, n, contains-erase u r.interest a, contains-concat r.queue u a)

pub seen-epoll_run :
    (events : List ℕ) (a : ℕ) (r : Reactor)
    → All (λ u. u ≢ a) events
    → seen a (epoll_run events r) ≡ seen a r
unfolding epoll_run
seen-epoll_run [] a r n = refl
seen-epoll_run (u ∷ events) a r n =
    seen-epoll_run events a (complete u r) n.1 ∙ seen-complete u a r n.0

pub seen-poll_timers :
    (now a : ℕ) (r : Reactor) → has r.timers a ≡ false → seen a (poll_timers now r).0 ≡ seen a r
unfolding poll_timers
seen-poll_timers now a r t =
    let d = Timer.get_delay now r.timers in
    let all = wake_all-rest d.woken r in
    let states = wake_all-states d.woken a r in
    let queue = wake_all-queue d.woken a r in
    let timers = get_delay-has now r.timers a in
    let unwoken : contains d.woken a ≡ false = ground (arith, timers, t) in
    ground (arith, all, states, queue, timers, unwoken, t)

-- What another task does does not spawn this one.
abbrev pub Spares : ℕ → Action → Type 0
Spares a (spawns u) = u ≢ a
Spares a (sleeps now delay) = Unit
Spares a (awaits registered) = Unit

seen-perform :
    (u : ℕ) (act : Action) (a : ℕ) (r : Reactor)
    → u ≢ a
    → Spares a act
    → seen a (perform u act r) ≡ seen a r
unfolding perform update
seen-perform u (spawns v) a r n s = seen-spawn v a r s
seen-perform u (sleeps now delay) a r n s = ground (arith, n, add-has_other now delay u a r.timers)
seen-perform u (awaits true) a r n s = ground (arith, n, contains-insert u r.interest a)
seen-perform u (awaits false) a r n s = ground (arith, n)

seen-perform_all :
    (u : ℕ) (acts : List Action) (a : ℕ) (r : Reactor)
    → u ≢ a
    → All (Spares a) acts
    → seen a (perform_all u acts r) ≡ seen a r
unfolding perform_all
seen-perform_all u [] a r n s = refl
seen-perform_all u (act ∷ acts) a r n s =
    seen-perform_all u acts a (perform u act r) n s.1 ∙ seen-perform u act a r n s.0

seen-settle : (u a : ℕ) (s : ScheduleType) (r : Reactor) → u ≢ a → seen a (settle u s r) ≡ seen a r
unfolding settle
seen-settle u a run r n = ground (arith, n, contains-concat r.queue u a)
seen-settle u a done r n = ground (arith, n, contains-erase u r.active a)
seen-settle u a wait r n = refl

-- A task that is not in the queue is not at its front.
pub front_other :
    (u : ℕ) (rest : List ℕ) (a : ℕ) (r : Reactor)
    → r.queue ≡ u ∷ rest
    → contains r.queue a ≡ false
    → u ≢ a
unfolding contains
front_other u rest a r front q =
    let split : contains (u ∷ rest) a ≡ false = subst (λ xs. contains xs a ≡ false) front q in
    λ e. ground (arith, split, e)

-- The task at the front of the queue, another one, is taken off.
pub seen-popped :
    (u : ℕ) (rest : List ℕ) (a : ℕ) (r : Reactor)
    → r.queue ≡ u ∷ rest
    → u ≢ a
    → seen a (popped rest r) ≡ seen a r
unfolding contains
seen-popped u rest a r front n =
    let split : contains r.queue a ≡ contains (u ∷ rest) a = ap (λ xs. contains xs a) front in
    ground (arith, n, split)

pub seen-process_task :
    (body : Body) (u : ℕ) (a : ℕ) (r : Reactor)
    → u ≢ a
    → All (Spares a) (body u r).0
    → seen a (process_task body u r) ≡ seen a r
unfolding process_task one_step
seen-process_task body u a r n s = elim (Bool-cases (is_waiting (r.states u))) [
  | inl waits ↦ rw waits (seen-settle u a wait r n)
  | inr runs ↦ rw runs (seen-settle u a _ _ n ∙ seen-perform_all u (body u r).0 a r n s)
]
