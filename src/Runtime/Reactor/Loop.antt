-- ===== src/Runtime/Reactor/Loop.antt =====
-- basic_reactor.inl: the loops of `process_tasks` and `run`, when they end, and how long epoll may block.
use cppio.Common.{
  ℕ, zero, suc, ◌+◌, ◌≡◌, ◌≢◌, ◌≤◌, refl, ap, arith, Bool, true, false, List, [], ◌∷◌, Bool-cases,
  inl, inr, none, some, length, All, ◌∙◌, ◌⊎◌, subst, sym,
}
use cppio.Runtime.Timer
use cppio.Runtime.Timer.{Pool}
use cppio.Runtime.Timer.Due.{IsOrdered, get_delay-TakesDue}
use cppio.Runtime.Reactor.{
  ScheduleType, done, run, wait, Reactor, is_waiting, Body, Action, spawns, sleeps, awaits, perform,
  perform_all, one_step, settle, process_task, process_tasks, wait_for,
}

pub list-cases : (xs : List ℕ) → (xs ≡ []) ⊎ ((x : ℕ) × (rest : List ℕ) × (xs ≡ x ∷ rest))
list-cases [] = inl refl
list-cases (x ∷ rest) = inr (x, rest, refl)

pub process_tasks_nil :
    (fuel : ℕ) (body : Body) (r : Reactor) → r.queue ≡ [] → process_tasks fuel body r ≡ some r
unfolding process_tasks
process_tasks_nil zero body r e = rw e refl
process_tasks_nil (suc fuel) body r e = rw e refl

pub process_tasks-zero :
    (body : Body) (t : ℕ) (rest : List ℕ) (r : Reactor)
    → r.queue ≡ t ∷ rest
    → process_tasks zero body r ≡ none
unfolding process_tasks
process_tasks-zero body t rest r e = rw e refl

pub process_tasks_cons :
    (fuel : ℕ) (body : Body) (t : ℕ) (rest : List ℕ) (r : Reactor)
    → r.queue ≡ t ∷ rest
    → process_tasks (suc fuel) body r
      ≡ process_tasks fuel body (process_task body t (record r { queue = rest }))
unfolding process_tasks
process_tasks_cons fuel body t rest r e = rw e refl

-- When `process_tasks` ends, the queue is empty.
pub process_tasks_empty :
    (fuel : ℕ) (body : Body) (r after : Reactor)
    → process_tasks fuel body r ≡ some after
    → after.queue ≡ []
process_tasks_empty zero body r after h = elim (list-cases r.queue) [
  | inl e ↦
      let ends = process_tasks_nil zero body r e in
      let same : r ≡ after = cc in subst (λ s. s.queue ≡ []) same e
  | inr (t, rest, e) ↦ absurd (cc (process_tasks-zero body t rest r e, h))
]
process_tasks_empty (suc fuel) body r after h = elim (list-cases r.queue) [
  | inl e ↦
      let ends = process_tasks_nil (suc fuel) body r e in
      let same : r ≡ after = cc in subst (λ s. s.queue ≡ []) same e
  | inr (t, rest, e) ↦
      process_tasks_empty fuel body (process_task body t (record r { queue = rest })) after
        (sym (process_tasks_cons fuel body t rest r e) ∙ h)
]

abbrev pub is_spawn : Action → Bool
is_spawn (spawns u) = true
is_spawn _ = false

-- A task that a resumption leaves waiting or returned, and that spawns none.
abbrev pub IsQuiet : Body → Type 0
IsQuiet body =
    (t : ℕ) (r : Reactor)
    → All (λ act. is_spawn act ≡ false) (body t r).0 × ((one_step body t r).1 ≢ run)

perform-queue :
    (t : ℕ) (act : Action) (r : Reactor) → is_spawn act ≡ false → (perform t act r).queue ≡ r.queue
unfolding perform
perform-queue t (spawns u) r h = absurd (cc h)
perform-queue t (sleeps now delay) r h = refl
perform-queue t (awaits true) r h = refl
perform-queue t (awaits false) r h = refl

perform_all-queue :
    (t : ℕ) (acts : List Action) (r : Reactor)
    → All (λ act. is_spawn act ≡ false) acts
    → (perform_all t acts r).queue ≡ r.queue
unfolding perform_all
perform_all-queue t [] r h = refl
perform_all-queue t (act ∷ acts) r h =
    let rest = perform_all-queue t acts (perform t act r) h.1 in
    let first = perform-queue t act r h.0 in cc

settle-queue : (t : ℕ) (s : ScheduleType) (r : Reactor) → s ≢ run → (settle t s r).queue ≡ r.queue
unfolding settle
settle-queue t run r h = absurd (h refl)
settle-queue t done r h = refl
settle-queue t wait r h = refl

process_task-queue :
    (body : Body) (t : ℕ) (r : Reactor) → IsQuiet body → (process_task body t r).queue ≡ r.queue
unfolding process_task one_step
process_task-queue body t r quiet =
    let q = quiet t r in
    elim (Bool-cases (is_waiting (r.states t))) [
      | inl waits ↦ rw waits (settle-queue t wait r (λ e. cc e))
      | inr runs ↦
          let kept = perform_all-queue t (body t r).0 r q.0 in
          let settled = settle-queue t _ (perform_all t (body t r).0 r) q.1 in
          rw (runs, settled) kept
    ]

process_tasks_end :
    (fuel : ℕ) (body : Body) (r : Reactor)
    → IsQuiet body
    → length r.queue ≤ fuel
    → (after : Reactor) × (process_tasks fuel body r ≡ some after)
process_tasks_end zero body r quiet h = elim (list-cases r.queue) [
  | inl e ↦ (r, process_tasks_nil zero body r e)
  | inr (t, rest, e) ↦
      let long : length r.queue ≡ suc (length rest) = ap length e in absurd (omega (arith, h, long))
]
process_tasks_end (suc fuel) body r quiet h = elim (list-cases r.queue) [
  | inl e ↦ (r, process_tasks_nil (suc fuel) body r e)
  | inr (t, rest, e) ↦
      let long : length r.queue ≡ suc (length rest) = ap length e in
      let next = process_task body t (record r { queue = rest }) in
      let kept : length next.queue ≡ length rest =
        ap length (process_task-queue body t (record r { queue = rest }) quiet) in
      let (after, ends) = process_tasks_end fuel body next quiet (omega (arith, h, long, kept)) in
      (after, process_tasks_cons fuel body t rest r e ∙ ends)
]

-- If every resumption leaves its task waiting or returned and spawns none, then `process_tasks` ends with
-- an empty queue, within as many rounds as the queue is long.
process_tasks_drain :
    (fuel : ℕ) (body : Body) (r : Reactor)
    → IsQuiet body
    → length r.queue ≤ fuel
    → (after : Reactor) × (process_tasks fuel body r ≡ some after) × (after.queue ≡ [])
process_tasks_drain fuel body r quiet h =
    let (after, e) = process_tasks_end fuel body r quiet h in
    (after, e, process_tasks_empty fuel body r after e)

-- A task that neither waits, returns, nor does anything keeps `process_tasks` from ending, with every
-- fuel: timers and events are not looked at any more.
process_tasks_starve :
    (fuel : ℕ) (body : Body) (t : ℕ) (r : Reactor)
    → r.queue ≡ t ∷ []
    → r.states t ≡ run
    → ((s : Reactor) → body t s ≡ ([], false))
    → process_tasks fuel body r ≡ none
unfolding process_tasks process_task one_step perform_all settle is_waiting
process_tasks_starve zero body t r front ready yields = rw front refl
process_tasks_starve (suc fuel) body t r front ready yields =
    process_tasks_cons fuel body t [] r front
    ∙ rw (ready, yields (record r { queue = [] }), ready)
        (process_tasks_starve fuel body t (record r { queue = t ∷ [] }) refl ready yields)

-- While a timer is pending, epoll is let block until the first deadline that is not reached, whether or not
-- tasks that are due, or were scheduled before, stand in the queue.
wait_for-get_delay :
    (now : ℕ) (pool : Pool) (queue : List ℕ) (w t : ℕ) (rest : Pool)
    → IsOrdered pool
    → (Timer.get_delay now pool).left ≡ (w, t) ∷ rest
    → now + wait_for queue (Timer.get_delay now pool).wait_time ≡ w
unfolding wait_for
wait_for-get_delay now pool queue w t rest ordered left =
    let d = get_delay-TakesDue now pool ordered in
    let first = d.waits_for_first w t rest left in
    elim d.waits [ inl none_left ↦ absurd (cc) | inr positive ↦ ground (arith, first, positive) ]
