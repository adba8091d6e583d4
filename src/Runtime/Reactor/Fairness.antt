-- ===== src/Runtime/Reactor/Fairness.antt =====
-- basic_reactor.inl: the order in which `process_tasks` takes the tasks.
use cppio.Common.{
  ℕ, suc, ◌+◌, ◌≡◌, refl, sym, ap, ◌∙◌, Bool-cases, inl, inr, true, false, List, [], ◌∷◌, ◌++◌,
  append-nil, append_assoc, length, arith,
}
use cppio.Runtime.Reactor.{
  ScheduleType, done, run, wait, Reactor, is_waiting, Body, Action, spawns, sleeps, awaits, perform,
  perform_all, one_step, settle, process_task, process_tasks,
}
use cppio.Runtime.Reactor.Tracking.{popped}
use cppio.Runtime.Reactor.Loop.{process_tasks_cons}

-- The queue has grown at its end only.
abbrev pub Extends : List ℕ → List ℕ → Type 0
Extends before after = (more : List ℕ) × (after ≡ before ++ more)

Extends-trans : (xs : List ℕ) {ys zs : List ℕ} → Extends xs ys → Extends ys zs → Extends xs zs
Extends-trans xs (us, e) (vs, f) =
    (us ++ vs, f ∙ ap {A = List ℕ} (λ q. q ++ vs) e ∙ append_assoc xs us vs)

perform-Extends : (t : ℕ) (act : Action) (r : Reactor) → Extends r.queue (perform t act r).queue
unfolding perform
perform-Extends t (spawns u) r = (u ∷ [], refl)
perform-Extends t (sleeps now delay) r = ([], sym (append-nil r.queue))
perform-Extends t (awaits true) r = ([], sym (append-nil r.queue))
perform-Extends t (awaits false) r = ([], sym (append-nil r.queue))

perform_all-Extends :
    (t : ℕ) (acts : List Action) (r : Reactor) → Extends r.queue (perform_all t acts r).queue
unfolding perform_all
perform_all-Extends t [] r = ([], sym (append-nil r.queue))
perform_all-Extends t (act ∷ acts) r =
    Extends-trans r.queue (perform-Extends t act r) (perform_all-Extends t acts (perform t act r))

settle-Extends :
    (t : ℕ) (result : ScheduleType) (r : Reactor) → Extends r.queue (settle t result r).queue
unfolding settle
settle-Extends t run r = (t ∷ [], refl)
settle-Extends t done r = ([], sym (append-nil r.queue))
settle-Extends t wait r = ([], sym (append-nil r.queue))

process_task-Extends :
    (body : Body) (t : ℕ) (r : Reactor) → Extends r.queue (process_task body t r).queue
unfolding process_task one_step
process_task-Extends body t r = elim (Bool-cases (is_waiting (r.states t))) [
  | inl waits ↦ rw waits (settle-Extends t wait r)
  | inr runs ↦
      rw runs (Extends-trans r.queue (perform_all-Extends t (body t r).0 r) (settle-Extends t _ _))
]

zero_rounds : (fuel : ℕ) → suc fuel ≡ 0 + suc fuel
zero_rounds fuel = omega arith

more_rounds :
    (u : ℕ) (before : List ℕ) (fuel : ℕ)
    → length (u ∷ before) + suc fuel ≡ suc (length before + suc fuel)
more_rounds u before fuel = omega arith

-- A task in the queue is taken after as many rounds of `process_tasks` as tasks stand before it, whatever these do:
-- the loop comes to a state in which it is at the front, with the tasks that stood behind it behind it and those
-- that were added meanwhile at the end, and then goes on with it.
pub process_tasks-Extends :
    (body : Body) (t : ℕ) (before after : List ℕ) (r : Reactor)
    → r.queue ≡ before ++ t ∷ after
    → (s : Reactor) × (rest : List ℕ) × (s.queue ≡ t ∷ rest)
      × Extends after rest
      × ((fuel : ℕ)
          → process_tasks (length before + suc fuel) body r
            ≡ process_tasks fuel body (process_task body t (popped rest s)))
process_tasks-Extends body t [] after r q = (
  r,
  after,
  q,
  ([], sym (append-nil after)),
  (λ fuel.
      ap (λ n. process_tasks n body r) (sym (zero_rounds fuel))
      ∙ process_tasks_cons fuel body t after r q),
)
process_tasks-Extends body t (u ∷ before) after r q =
    let first = process_task body u (popped (before ++ t ∷ after) r) in
    let (more, grown) = process_task-Extends body u (popped (before ++ t ∷ after) r) in
    let (s, rest, front, later, goes_on) =
      process_tasks-Extends body t before (after ++ more) first
        (grown ∙ append_assoc before (t ∷ after) more) in
    (
      s,
      rest,
      front,
      Extends-trans after (more, refl) later,
      (λ fuel.
          ap (λ n. process_tasks n body r) (more_rounds u before fuel)
          ∙ process_tasks_cons (length before + suc fuel) body u (before ++ t ∷ after) r q
          ∙ goes_on fuel),
    )
