-- ===== src/Runtime/Reactor/Current/Runs.antt =====
-- basic_reactor.inl: what `run` does with the pointers of its thread, and when the reactor is stopped.
use cppio.Runtime.Reactor.Loop.{
  list-cases, process_tasks_nil, process_tasks-zero, process_tasks_cons,
}
use mathlib.Core.Option
use cppio.Runtime.Timer
use cppio.Common.{
  ℕ, zero, suc, Bool, true, false, Option, none, some, List, [], ◌∷◌, ◌++◌, refl, ◌≡◌, ap, inl, ◌∙◌,
  sym, inr,
}
use cppio.Runtime.Reactor
use cppio.Runtime.Reactor.{
  Reactor, Body, Round, process_task, process_tasks, poll_timers, epoll_run, run_rounds,
}
use cppio.Runtime.Reactor.Current.{
  Thread, LocalBody, process_current, process_all, run_current, stop,
}
use cppio.Runtime.Reactor.Running.{running-woken, running-process_tasks, woken_active, woken_queue}

-- What each task does is what it does where it is the current task of the reactor.
abbrev pub resolved : ℕ → Thread → LocalBody → Body
resolved this thread body t r = body (record thread { reactor = some this; task = some t }) t r

process_current-process_task :
    (this : ℕ) (body : LocalBody) (t : ℕ) (thread : Thread) (r : Reactor)
    → thread.reactor ≡ some this
    → process_current body t (thread, r) ≡ (thread, process_task (resolved this thread body) t r)
unfolding process_current process_task Reactor.one_step
process_current-process_task this body t thread r here = rw here refl

process_all_nil :
    (fuel : ℕ) (body : LocalBody) (thread : Thread) (r : Reactor)
    → r.queue ≡ []
    → process_all fuel body (thread, r) ≡ some (thread, r)
unfolding process_all
process_all_nil zero body thread r e = simp e refl
process_all_nil (suc fuel) body thread r e = simp e refl

process_all_cons :
    (fuel : ℕ) (body : LocalBody) (thread : Thread) (t : ℕ) (rest : List ℕ) (r : Reactor)
    → r.queue ≡ t ∷ rest
    → process_all (suc fuel) body (thread, r)
      ≡ process_all fuel body (process_current body t (thread, record r { queue = rest }))
unfolding process_all
process_all_cons fuel body thread t rest r e = rw e refl

process_all-zero :
    (body : LocalBody) (thread : Thread) (t : ℕ) (rest : List ℕ) (r : Reactor)
    → r.queue ≡ t ∷ rest
    → process_all zero body (thread, r) ≡ none
unfolding process_all
process_all-zero body thread t rest r e = rw e refl

abbrev beside : Thread → Reactor → Thread × Reactor
beside thread r = (thread, r)

process_all-process_tasks :
    (this fuel : ℕ) (body : LocalBody) (thread : Thread) (r : Reactor)
    → thread.reactor ≡ some this
    → process_all fuel body (thread, r)
      ≡ Option.map (beside thread) (process_tasks fuel (resolved this thread body) r)
process_all-process_tasks this zero body thread r here = elim (list-cases r.queue) [
  | inl e ↦
      process_all_nil zero body thread r e
      ∙ ap (Option.map (beside thread))
          (sym (process_tasks_nil zero (resolved this thread body) r e))
  | inr (t, rest, e) ↦
      process_all-zero body thread t rest r e
      ∙ ap (Option.map (beside thread))
          (sym (process_tasks-zero (resolved this thread body) t rest r e))
]
process_all-process_tasks this (suc fuel) body thread r here = elim (list-cases r.queue) [
  | inl e ↦
      process_all_nil (suc fuel) body thread r e
      ∙ ap (Option.map (beside thread))
          (sym (process_tasks_nil (suc fuel) (resolved this thread body) r e))
  | inr (t, rest, e) ↦
      let popped = record r { queue = rest } in
      let next = process_task (resolved this thread body) t popped in
      process_all_cons fuel body thread t rest r e
      ∙ ap (process_all fuel body) (process_current-process_task this body t thread popped here)
      ∙ process_all-process_tasks this fuel body thread next here
      ∙ ap (Option.map (beside thread))
          (sym (process_tasks_cons fuel (resolved this thread body) t rest r e))
]

-- While the reactor is not stopped, `run` gives every coroutine its own task as the current one and this reactor as the
-- current reactor, whatever thread calls it: it does what it does in the model that hands each body its task, and
-- leaves the pointers of the thread as they were.
pub run_current-run_rounds :
    (this fuel : ℕ) (body : LocalBody) (rounds : List Round) (thread : Thread) (r : Reactor)
    → r.running ≡ true
    → run_current this fuel body rounds (thread, r)
      ≡ Option.map (λ after. (thread, after)) (run_rounds fuel (resolved this thread body) rounds r)
unfolding run_current run_rounds
run_current-run_rounds this fuel body [] thread r on = refl
run_current-run_rounds this fuel body (round ∷ rounds) thread r on =
    let same = process_all-process_tasks this fuel body inside woken refl in
    ap (left r.active woken.running) same
    ∙ go r.active woken.running (process_tasks fuel body' woken) (running-woken round r ∙ on)
        (λ after e.
          run_current-run_rounds this fuel body rounds thread after
            (running-process_tasks fuel body' woken after e ∙ running-woken round r ∙ on))
  where
    body' : Body
    body' = resolved this thread body

    inside : Thread
    inside = record thread { reactor = some this }

    woken : Reactor
    woken = epoll_run round.events (poll_timers round.now r).0

    left : List ℕ → Bool → Option (Thread × Reactor) → Option (Thread × Reactor)
    left active running processed = elim active [
      | [] ↦ some (thread, r)
      | t ∷ rest ↦ elim running [
        | false ↦ some (inside, woken)
        | true ↦ elim processed [
          | none ↦ none
          | some (inside', after) ↦
              run_current this fuel body rounds (record inside' { reactor = thread.reactor }, after)
        ]
      ]
    ]

    right : List ℕ → Bool → Option Reactor → Option Reactor
    right active running processed = elim active [
      | [] ↦ some r
      | t ∷ rest ↦ elim running [
        | false ↦ some woken
        | true ↦ elim processed [ none ↦ none | some after ↦ run_rounds fuel body' rounds after ]
      ]
    ]

    go :
        (active : List ℕ) (running : Bool) (processed : Option Reactor)
        → running ≡ true
        → ((after : Reactor)
            → processed ≡ some after
            → run_current this fuel body rounds (thread, after)
              ≡ Option.map (beside thread) (run_rounds fuel body' rounds after))
        → left active running (Option.map (beside inside) processed)
          ≡ Option.map (beside thread) (right active running processed)
    go [] running processed on rest = refl
    go (t ∷ ts) false processed on rest = absurd (cc on)
    go (t ∷ ts) true none on rest = refl
    go (t ∷ ts) true (some after) on rest = rest after refl

-- A reactor that is stopped while a task is active processes no task any more: wherever a thread comes out of epoll,
-- `run` ends there, whatever the tasks do, however long the queue is, and whatever would happen later. The tasks that
-- a timer or epoll has woken stand behind the others in the queue, every task that was active still is, and the
-- pointer of the thread to the reactor is not put back.
pub run_current-stop :
    (this fuel t : ℕ) (body : LocalBody) (active : List ℕ) (round : Round) (rounds : List Round)
    (thread : Thread) (r : Reactor)
    → r.active ≡ t ∷ active
    → (after : Reactor) × (run_current this fuel body (round ∷ rounds) (thread, stop r)
        ≡ some (record thread { reactor = some this }, after))
      × (after.active ≡ r.active)
      × (after.queue ≡ r.queue ++ ((Timer.get_delay round.now r.timers).woken ++ round.events))
      × (after.running ≡ false)
unfolding run_current stop
run_current-stop this fuel t body active round rounds thread r e =
    let off : woken.running ≡ false = running-woken round (stop r) in
    (
      woken,
      ap (λ active. ends active woken.running) e ∙ ap (ends (t ∷ active)) off,
      woken_active round (stop r),
      woken_queue round (stop r),
      off,
    )
  where
    inside : Thread
    inside = record thread { reactor = some this }

    woken : Reactor
    woken = epoll_run round.events (poll_timers round.now (stop r)).0

    ends : List ℕ → Bool → Option (Thread × Reactor)
    ends active running = elim active [
      | [] ↦ some (thread, stop r)
      | t ∷ rest ↦ elim running [
        | false ↦ some (inside, woken)
        | true ↦ elim (process_all fuel body (inside, woken)) [
          | none ↦ none
          | some (inside', after) ↦
              run_current this fuel body rounds (record inside' { reactor = thread.reactor }, after)
        ]
      ]
    ]
