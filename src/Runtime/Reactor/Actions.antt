-- ===== src/Runtime/Reactor/Actions.antt =====
-- basic_reactor.inl, sleep.cpp, epoll.cpp: no active task is forgotten. Each operation is shown to keep
-- track of every task.
use cppio.Runtime.Timer
use cppio.Runtime.Timer.Collision.{IsFree, has-add, get_delay-has}
use cppio.Common.{ℕ, ◌≡◌, arith, true, false, ◌||◌, List, not, ◌∷◌, ◌≢◌, ◌&&◌, ◌+◌, [], refl}
use cppio.Runtime.Sets.{contains, update, contains-concat, contains-insert, contains-erase}
use cppio.Runtime.Timer.{has}
use cppio.Runtime.Reactor.{
  Reactor, is_waiting, spawn, wake, perform_all, complete, wake_all, perform, poll_timers,
  epoll_run, Action, spawns, sleeps, awaits,
}

-- A task that is active and waits has a timer or a registration that will wake it.
abbrev pub IsHeld : ℕ → Reactor → Type 0
IsHeld a r =
    contains r.active a ≡ true
    → is_waiting (r.states a) ≡ true
    → (has r.timers a || contains r.interest a) ≡ true

-- A task that is active and does not wait is in the queue.
abbrev pub IsQueued : ℕ → Reactor → Type 0
IsQueued a r =
    contains r.active a ≡ true → is_waiting (r.states a) ≡ false → contains r.queue a ≡ true

abbrev pub IsTracked : ℕ → Reactor → Type 0
IsTracked a r = IsHeld a r × IsQueued a r

pub spawn-IsTracked : (u a : ℕ) (r : Reactor) → IsTracked a r → IsTracked a (spawn u r)
unfolding spawn update is_waiting
spawn-IsTracked u a r (h, q) = (
  (λ act w. ground (arith, contains-insert u r.active a, h)),
  (λ act w. ground (arith, contains-insert u r.active a, contains-concat r.queue u a, q)),
)

pub wake-IsTracked : (t a : ℕ) (r : Reactor) → IsTracked a r → IsTracked a (wake t r)
unfolding wake update is_waiting
wake-IsTracked t a r (h, q) =
    ((λ act w. ground (arith, h)), (λ act w. ground (arith, contains-concat r.queue t a, q)))

-- Waking a list of tasks whose timers or registrations have just been taken.
pub wake_all-states :
    (ts : List ℕ) (a : ℕ) (r : Reactor)
    → is_waiting ((wake_all ts r).states a) ≡ (not (contains ts a) && is_waiting (r.states a))
unfolding wake_all wake update contains is_waiting
wake_all-states [] a r = refl
wake_all-states (t ∷ ts) a r = ground (arith, wake_all-states ts a (wake t r))

pub wake_all-queue :
    (ts : List ℕ) (a : ℕ) (r : Reactor)
    → contains (wake_all ts r).queue a ≡ (contains r.queue a || contains ts a)
unfolding wake_all wake contains
wake_all-queue [] a r = ground arith
wake_all-queue (t ∷ ts) a r =
    ground (arith, wake_all-queue ts a (wake t r), contains-concat r.queue t a)

pub wake_all-rest :
    (ts : List ℕ) (r : Reactor)
    → ((wake_all ts r).active ≡ r.active) × ((wake_all ts r).interest ≡ r.interest)
unfolding wake_all wake
wake_all-rest [] r = (refl, refl)
wake_all-rest (t ∷ ts) r = wake_all-rest ts (wake t r)

pub poll_timers-IsTracked :
    (now a : ℕ) (r : Reactor) → IsTracked a r → IsTracked a (poll_timers now r).0
unfolding poll_timers
poll_timers-IsTracked now a r (h, q) =
    let d = Timer.get_delay now r.timers in
    let all = wake_all-rest d.woken r in
    let states = wake_all-states d.woken a r in
    let queue = wake_all-queue d.woken a r in
    let timers = get_delay-has now r.timers a in
    (
      (λ act w. ground (arith, all, states, timers, h)),
      (λ act w. ground (arith, all, states, queue, timers, q)),
    )

pub complete-IsTracked : (t a : ℕ) (r : Reactor) → IsTracked a r → IsTracked a (complete t r)
unfolding complete wake update is_waiting
complete-IsTracked t a r (h, q) = (
  (λ act w. ground (arith, contains-erase t r.interest a, h)),
  (λ act w. ground (arith, contains-concat r.queue t a, q)),
)

pub epoll_run-IsTracked :
    (events : List ℕ) (a : ℕ) (r : Reactor) → IsTracked a r → IsTracked a (epoll_run events r)
unfolding epoll_run
epoll_run-IsTracked [] a r h = h
epoll_run-IsTracked (t ∷ events) a r h =
    epoll_run-IsTracked events a (complete t r) (complete-IsTracked t a r h)

-- An action that will be answered: a timer at a deadline that no other has, or a registration that
-- `epoll_ctl` accepts.
abbrev pub IsSafe : Action → Reactor → Type 0
IsSafe (spawns u) r = Unit
IsSafe (sleeps now delay) r = IsFree (now + delay) r.timers
IsSafe (awaits registered) r = registered ≡ true

-- Each action of the list, in the state in which it is performed.
abbrev pub AllSafe : ℕ → List Action → Reactor → Type 0
AllSafe t [] r = Unit
AllSafe t (act ∷ acts) r = IsSafe act r × AllSafe t acts (perform t act r)

perform-IsHeld :
    (t : ℕ) (act : Action) (a : ℕ) (r : Reactor)
    → IsSafe act r
    → IsHeld a r
    → IsHeld a (perform t act r)
unfolding perform update is_waiting
perform-IsHeld t (spawns u) a r s h = λ act w. ground (arith, contains-insert u r.active a, h)
perform-IsHeld t (sleeps now delay) a r s h =
    λ act w. ground (arith, has-add now delay t r.timers a s, h)
perform-IsHeld t (awaits registered) a r s h =
    λ act w. ground (arith, contains-insert t r.interest a, h)

perform-IsQueued :
    (t : ℕ) (act : Action) (a : ℕ) (r : Reactor)
    → a ≢ t
    → IsQueued a r
    → IsQueued a (perform t act r)
unfolding perform update is_waiting
perform-IsQueued t (spawns u) a r n q =
    λ act w. ground (arith, contains-insert u r.active a, contains-concat r.queue u a, q)
perform-IsQueued t (sleeps now delay) a r n q = λ act w. ground (arith, q)
perform-IsQueued t (awaits registered) a r n q = λ act w. ground (arith, q)

pub perform_all-IsHeld :
    (t : ℕ) (acts : List Action) (a : ℕ) (r : Reactor)
    → AllSafe t acts r
    → IsHeld a r
    → IsHeld a (perform_all t acts r)
unfolding perform_all
perform_all-IsHeld t [] a r s h = h
perform_all-IsHeld t (act ∷ acts) a r s h =
    perform_all-IsHeld t acts a (perform t act r) s.1 (perform-IsHeld t act a r s.0 h)

pub perform_all-IsQueued :
    (t : ℕ) (acts : List Action) (a : ℕ) (r : Reactor)
    → a ≢ t
    → IsQueued a r
    → IsQueued a (perform_all t acts r)
unfolding perform_all
perform_all-IsQueued t [] a r n q = q
perform_all-IsQueued t (act ∷ acts) a r n q =
    perform_all-IsQueued t acts a (perform t act r) n (perform-IsQueued t act a r n q)
