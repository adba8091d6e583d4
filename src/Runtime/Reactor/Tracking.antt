-- ===== src/Runtime/Reactor/Tracking.antt =====
-- basic_reactor.inl: the scheduler as a step relation, in which the outside chooses what happens next,
-- and the invariant of the states that it reaches.
use cppio.Common.{
  ℕ, ◌≡◌, ◌≢◌, refl, sym, arith, Bool, true, false, List, ◌∷◌, ◌==◌, ==_iff, if◌then◌else◌,
  Bool-cases, inl, inr, subst, ◌⊎◌,
}
use cppio.Runtime.Sets.{contains, contains-concat, contains-erase}
use cppio.Runtime.Reactor.{
  ScheduleType, done, run, wait, Reactor, is_waiting, spawn, poll_timers, epoll_run, Body, one_step,
  settle, process_task,
}
use cppio.Runtime.Reactor.Actions.{
  IsHeld, IsQueued, IsTracked, AllSafe, spawn-IsTracked, poll_timers-IsTracked, epoll_run-IsTracked,
  perform_all-IsHeld, perform_all-IsQueued,
}

-- The state with the front of the queue taken off.
abbrev pub popped : List ℕ → Reactor → Reactor
popped rest r = record r { queue = rest }

popped-IsQueued :
    (t : ℕ) (rest : List ℕ) (a : ℕ) (r : Reactor)
    → r.queue ≡ t ∷ rest
    → a ≢ t
    → IsQueued a r
    → IsQueued a (popped rest r)
unfolding contains
popped-IsQueued t rest a r e n q = λ act w. ground (arith, q act w)

-- What the answer of a resumed task does to the others, and to the task itself.
settle-IsHeld : (t a : ℕ) (s : ScheduleType) (r : Reactor) → IsHeld a r → IsHeld a (settle t s r)
unfolding settle
settle-IsHeld t a run r h = h
settle-IsHeld t a wait r h = h
settle-IsHeld t a done r h = λ act w. ground (arith, contains-erase t r.active a, h)

settle-IsQueued :
    (t a : ℕ) (s : ScheduleType) (r : Reactor) → IsQueued a r → IsQueued a (settle t s r)
unfolding settle
settle-IsQueued t a run r q = λ act w. ground (arith, contains-concat r.queue t a, q)
settle-IsQueued t a wait r q = q
settle-IsQueued t a done r q = λ act w. ground (arith, contains-erase t r.active a, q)

settle-IsQueued_self :
    (t : ℕ) (s : ScheduleType) (r : Reactor)
    → (s ≡ done) ⊎ (s ≡ r.states t)
    → IsQueued t (settle t s r)
unfolding settle is_waiting
settle-IsQueued_self t run r e = λ act w. ground (arith, contains-concat r.queue t t)
settle-IsQueued_self t wait r e = λ act w. ground (arith, e)
settle-IsQueued_self t done r e = λ act w. ground (arith, contains-erase t r.active t)

settle-IsQueued_waits :
    (t : ℕ) (r : Reactor) → is_waiting (r.states t) ≡ true → IsQueued t (settle t wait r)
unfolding settle
settle-IsQueued_waits t r waits = λ act w. ground (arith, waits, w)

module _ (body : Body) (t : ℕ) (rest : List ℕ) (r : Reactor) (front : r.queue ≡ t ∷ rest) where
  -- The actions that the body takes when the front of the queue is resumed can all be answered.
  abbrev pub StepIsSafe : Type 0
  StepIsSafe =
      is_waiting (r.states t) ≡ false → AllSafe t (body t (popped rest r)).0 (popped rest r)

  process_task-IsHeld :
      (a : ℕ) → StepIsSafe → IsTracked a r → IsHeld a (process_task body t (popped rest r))
  unfolding process_task one_step
  process_task-IsHeld a safe (h, q) = elim (Bool-cases (is_waiting (r.states t))) [
    | inl waits ↦ rw waits (settle-IsHeld t a wait (popped rest r) h)
    | inr runs ↦
        rw runs (settle-IsHeld t a _ _ (perform_all-IsHeld t _ a (popped rest r) (safe runs) h))
  ]

  process_task-IsQueued_ne :
      (a : ℕ) → a ≢ t → IsTracked a r → IsQueued a (process_task body t (popped rest r))
  unfolding process_task one_step
  process_task-IsQueued_ne a n (h, q) =
      let before = popped-IsQueued t rest a r front n q in
      elim (Bool-cases (is_waiting (r.states t))) [
        | inl waits ↦ rw waits (settle-IsQueued t a wait (popped rest r) before)
        | inr runs ↦
            rw runs (settle-IsQueued t a _ _ (perform_all-IsQueued t _ a (popped rest r) n before))
      ]

  process_task-IsQueued_self : IsQueued t (process_task body t (popped rest r))
  unfolding process_task one_step
  process_task-IsQueued_self = elim (Bool-cases (is_waiting (r.states t))) [
    | inl waits ↦ rw waits (settle-IsQueued_waits t (popped rest r) waits)
    | inr runs ↦ rw runs (settle-IsQueued_self t _ _ (answer (body t (popped rest r)).1 _))
  ]
    where
      answer :
          (returned : Bool) (s : ScheduleType)
          → ((if returned then done else s) ≡ done) ⊎ ((if returned then done else s) ≡ s)
      answer true s = inl refl
      answer false s = inr refl

  process_task-IsTracked :
      (a : ℕ) → StepIsSafe → IsTracked a r → IsTracked a (process_task body t (popped rest r))
  process_task-IsTracked a safe h = elim (Bool-cases (a == t)) [
    | inl same ↦ (
      process_task-IsHeld a safe h,
      subst (λ b. IsQueued b (process_task body t (popped rest r))) (sym ((==_iff a t).0 same))
          process_task-IsQueued_self,
    )
    | inr other ↦
        (process_task-IsHeld a safe h, process_task-IsQueued_ne a (λ e. ground (arith, other, e)) h)
  ]

-- What can happen next to the reactor: a task is spawned from outside, the timers are polled, epoll
-- returns events, or the front of the queue is processed, by actions that can all be answered.
pub data Step (body : Body) (r : Reactor) : Reactor → Type 0 where
  spawned : (t : ℕ) → Step body r (spawn t r)
  polled : (now : ℕ) → Step body r (poll_timers now r).0
  returned : (events : List ℕ) → Step body r (epoll_run events r)
  processed :
      (t : ℕ) (rest : List ℕ) (front : r.queue ≡ t ∷ rest)
      → StepIsSafe body t rest r front
      → Step body r (process_task body t (popped rest r))

pub data Reach (body : Body) (r : Reactor) : Reactor → Type 0 where
  here : Reach body r r
  next : {s u : Reactor} → Reach body r s → Step body s u → Reach body r u

Step-IsTracked :
    {body : Body} {r s : Reactor} (a : ℕ) → Step body r s → IsTracked a r → IsTracked a s
Step-IsTracked {r = r} a (spawned t) h = spawn-IsTracked t a r h
Step-IsTracked {r = r} a (polled now) h = poll_timers-IsTracked now a r h
Step-IsTracked {r = r} a (returned events) h = epoll_run-IsTracked events a r h
Step-IsTracked {body} {r} a (processed t rest front safe) h =
    process_task-IsTracked body t rest r front a safe h

-- In every state that the scheduler reaches from a state that keeps track of a task, by any order of
-- spawning, timers, events and processing in which no task sleeps until a deadline that a timer has already
-- and no registration fails, the task is not forgotten: while it is active it is in the queue, or it waits and
-- has a timer or a registration that will wake it.
pub Reach-IsTracked :
    {body : Body} {r s : Reactor} (a : ℕ) → Reach body r s → IsTracked a r → IsTracked a s
Reach-IsTracked a here h = h
Reach-IsTracked a (next path step) h = Step-IsTracked a step (Reach-IsTracked a path h)
