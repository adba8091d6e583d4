-- ===== src/Runtime/Reactor/Lost.antt =====
-- sleep.cpp, timer_pool.hpp: a task that sleeps until a deadline that another timer has already.
use cppio.Runtime.Reactor.Frame.{
  seen, Spares, seen-spawn, seen-poll_timers, seen-epoll_run, front_other, seen-process_task,
  seen-popped,
}
use cppio.Common.{ℕ, ◌+◌, ◌≡◌, ◌≢◌, ap, ◌∙◌, subst, arith, true, false, List, ◌∷◌, ◌++◌, All}
use cppio.Runtime.Sets.{contains, update}
use cppio.Runtime.Timer
use cppio.Runtime.Timer.{Pool, has}
use cppio.Runtime.Timer.Due.{IsOrdered}
use cppio.Runtime.Timer.Collision.{add_taken}
use cppio.Runtime.Reactor.{
  Reactor, is_waiting, spawn, poll_timers, epoll_run, Body, process_task, perform, sleeps, awaits,
}
use cppio.Runtime.Reactor.Tracking.{popped}

-- A task that has not returned and waits, and that nothing will wake or resume.
abbrev pub IsLost : ℕ → Reactor → Type 0
IsLost a r =
    (contains r.active a ≡ true)
    × (is_waiting (r.states a) ≡ true)
    × (contains r.queue a ≡ false)
    × (has r.timers a ≡ false)
    × (contains r.interest a ≡ false)

-- A task is lost as long as nothing of it changes.
seen-IsLost : (a : ℕ) (r s : Reactor) → seen a s ≡ seen a r → IsLost a r → IsLost a s
seen-IsLost a r s same (act, w, q, t, i) = (
  ap (λ v. v.active) same ∙ act,
  ap (λ v. v.waiting) same ∙ w,
  ap (λ v. v.queued) same ∙ q,
  ap (λ v. v.timed) same ∙ t,
  ap (λ v. v.registered) same ∙ i,
)

-- The steps of the scheduler in which no other task spawns this one and epoll has no event for it; it has none,
-- since nothing is registered for it.
pub data Step (body : Body) (a : ℕ) (r : Reactor) : Reactor → Type 0 where
  spawned : (u : ℕ) → u ≢ a → Step body a r (spawn u r)
  polled : (now : ℕ) → Step body a r (poll_timers now r).0
  returned : (events : List ℕ) → All (λ u. u ≢ a) events → Step body a r (epoll_run events r)
  processed :
      (u : ℕ) (rest : List ℕ) (front : r.queue ≡ u ∷ rest)
      → All (Spares a) (body u (popped rest r)).0
      → Step body a r (process_task body u (popped rest r))

pub data Reach (body : Body) (a : ℕ) (r : Reactor) : Reactor → Type 0 where
  here : Reach body a r r
  next : {s u : Reactor} → Reach body a r s → Step body a s u → Reach body a r u

Step-IsLost : {body : Body} {r s : Reactor} (a : ℕ) → Step body a r s → IsLost a r → IsLost a s
Step-IsLost {r = r} a (spawned u n) h = seen-IsLost a r (spawn u r) (seen-spawn u a r n) h
Step-IsLost {r = r} a (polled now) h =
    seen-IsLost a r (poll_timers now r).0 (seen-poll_timers now a r h.3) h
Step-IsLost {r = r} a (returned events n) h =
    seen-IsLost a r (epoll_run events r) (seen-epoll_run events a r n) h
Step-IsLost {body} {r} a (processed u rest front s) h =
    let n = front_other u rest a r front h.2 in
    seen-IsLost a r (process_task body u (popped rest r))
      (seen-process_task body u a (popped rest r) n s ∙ seen-popped u rest a r front n) h

pub Reach-IsLost :
    (a : ℕ) {body : Body} {r s : Reactor} → Reach body a r s → IsLost a r → IsLost a s
Reach-IsLost a here h = h
Reach-IsLost a (next path step) h = Step-IsLost a step (Reach-IsLost a path h)

perform-IsLost_self :
    (a t now delay : ℕ) (before after : Pool) (r : Reactor)
    → contains r.active a ≡ true
    → contains r.queue a ≡ false
    → has r.timers a ≡ false
    → contains r.interest a ≡ false
    → r.timers ≡ before ++ (now + delay, t) ∷ after
    → IsOrdered r.timers
    → IsLost a (perform a (sleeps now delay) r)
unfolding perform update is_waiting
perform-IsLost_self a t now delay before after r act q h i taken ordered =
    let same : Timer.add now delay a r.timers ≡ r.timers =
      rw taken (add_taken now delay a t before after (subst IsOrdered taken ordered)) in
    (act, ground arith, q, ap (λ pool. has pool a) same ∙ h, i)

-- A task that is resumed and sleeps until a deadline that a timer of another task has already is lost: in every
-- state that the scheduler reaches from there it is active and waits, but it is not in the queue, and no timer
-- and no registration will wake it.
pub sleep-IsLost :
    (body : Body) (a t now delay : ℕ) (before after : Pool) (r s : Reactor)
    → contains r.active a ≡ true
    → contains r.queue a ≡ false
    → has r.timers a ≡ false
    → contains r.interest a ≡ false
    → r.timers ≡ before ++ (now + delay, t) ∷ after
    → IsOrdered r.timers
    → Reach body a (perform a (sleeps now delay) r) s
    → IsLost a s
sleep-IsLost body a t now delay before after r s act q h i taken ordered path =
    Reach-IsLost a path (perform-IsLost_self a t now delay before after r act q h i taken ordered)

-- A task that waits for a descriptor whose registration epoll refuses is lost, since its coroutine does not look at
-- the answer: in every state that the scheduler reaches from there it is active and waits, but it is not in the
-- queue, and no timer and no registration will wake it.
awaits-IsLost :
    (body : Body) (a : ℕ) (r s : Reactor)
    → contains r.active a ≡ true
    → contains r.queue a ≡ false
    → has r.timers a ≡ false
    → contains r.interest a ≡ false
    → Reach body a (perform a (awaits false) r) s
    → IsLost a s
unfolding perform update is_waiting
awaits-IsLost body a r s act q h i path = Reach-IsLost a path (act, ground arith, q, h, i)
