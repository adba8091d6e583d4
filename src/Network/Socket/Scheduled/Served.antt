-- ===== src/Network/Socket/Scheduled/Served.antt =====
-- The invariant of a read or write that the scheduler runs: where its task stands in the reactor, and what it will
-- return.
use cppio.Runtime.Ports
use cppio.Runtime.Reactor.Tracking.{popped}
use cppio.Network.Socket.Scheduled
use cppio.Runtime.Timer.{has}
use cppio.Runtime.Sets.{update, contains, contains-erase, contains-insert, contains-concat}
use cppio.Runtime.Ports.{Overlapped, Event}
use cppio.Runtime.Reactor.Frame.{
  seen, Seen, seen-spawn, seen-complete, seen-poll_timers, seen-process_task, seen-popped,
}
use cppio.Runtime.Reactor.{
  one_step, process_task, perform_all, perform, settle, Reactor, is_waiting, awaits, Body, complete,
  wake,
}
use cppio.Common.{
  ℕ, List, Bool, ◌≡◌, subst, false, true, ◌⊎◌, sym, arith, [], ◌∷◌, ◌∙◌, inl, Bool-cases, ◌≢◌, not,
  inr, ◌||◌, refl,
}
use cppio.Network.Socket.Loops.{Loop, waits, returns, Turn}
use cppio.Network.Socket.Scheduled.{
  Session, Point, starting, pausing, finished, Step, Reach, here, next, advance, resume, call,
  called, renew, with_reactor, spawned, polled, elsewhere, processed, skipped, resumed, reported,
  turned,
}

module _ {A L R : Type 0} (loop : Loop A L R) (t o : ℕ) where
  -- The task of a coroutine that has not returned is active. It is in the queue and may be resumed, or it waits and
  -- is registered; behind the wait the operation has what epoll has reported.
  abbrev pub IsPlaced : Point L R → Seen → Overlapped → Type 0
  IsPlaced (starting l) v op =
      (v.active ≡ true) × (v.waiting ≡ false) × (v.queued ≡ true) × (v.timed ≡ false)
  IsPlaced (pausing l success) v op =
      (v.active ≡ true)
      × (v.timed ≡ false)
      × (op.task ≡ t)
      × (((v.waiting ≡ true) × (v.registered ≡ true))
          ⊎ ((v.waiting ≡ false) × (v.queued ≡ true) × (op.success ≡ success)))
  IsPlaced (finished r) v op = (v.active ≡ false) × (v.timed ≡ false)

  abbrev pub IsAt : Session A L R → Type 0
  IsAt s = IsPlaced s.point (seen t s.port.reactor) (s.port.operations o)

  pub IsAt-point :
      (p : Point L R) (s : Session A L R)
      → s.point ≡ p
      → IsAt s
      → IsPlaced p (seen t s.port.reactor) (s.port.operations o)
  IsAt-point p s e h = subst (λ x. IsPlaced x (seen t s.port.reactor) (s.port.operations o)) e h

  IsPlaced-untimed :
      (p : Point L R) (v : Seen) (op : Overlapped) → IsPlaced p v op → v.timed ≡ false
  IsPlaced-untimed (starting l) v op h = h.3
  IsPlaced-untimed (pausing l success) v op h = h.1
  IsPlaced-untimed (finished r) v op h = h.1

  -- What leaves the task and the operation as they are keeps it in its place.
  kept :
      (p : Point L R) {v w : Seen} {op op' : Overlapped}
      → w ≡ v
      → op' ≡ op
      → IsPlaced p v op
      → IsPlaced p w op'
  kept p {v} {w} {op} {op'} e f h =
      subst (λ x. IsPlaced p w x) (sym f) (subst (λ x. IsPlaced p x op) (sym e) h)

  -- A resumption that waits for the descriptor, and one that returns.
  waits_seen :
      (r : Reactor)
      → is_waiting (r.states t) ≡ false
      → let v = seen t (process_task (λ u s. (awaits true ∷ [], false)) t r) in
        (v.active ≡ contains r.active t)
        × (v.waiting ≡ true)
        × (v.registered ≡ true)
        × (v.timed ≡ has r.timers t)
  unfolding process_task one_step perform_all perform settle update is_waiting
  waits_seen r runs = rw runs (ground (arith, contains-insert t r.interest t))

  returns_seen :
      (r : Reactor)
      → is_waiting (r.states t) ≡ false
      → let v = seen t (process_task (λ u s. ([], true)) t r) in
        (v.active ≡ false) × (v.timed ≡ has r.timers t)
  unfolding process_task one_step perform_all settle
  returns_seen r runs = rw runs (ground (arith, contains-erase t r.active t))

  renew-task :
      (before : Point L R) (l : L) (success : Bool) (operations : ℕ → Overlapped)
      → (Scheduled.is_starting before ≡ true) ⊎ ((operations o).task ≡ t)
      → (renew loop t o before (pausing l success) operations o).task ≡ t
  unfolding renew update
  renew-task before l success operations h = ground (arith, h)

  -- A call, made by a task that does not wait, leaves it in its place.
  call-IsPlaced :
      (l : L) (a : A) (success : Bool) (before : Point L R) (operations : ℕ → Overlapped)
      (r : Reactor)
      → contains r.active t ≡ true
      → is_waiting (r.states t) ≡ false
      → has r.timers t ≡ false
      → (Scheduled.is_starting before ≡ true) ⊎ ((operations o).task ≡ t)
      → let (acts, after) = call loop t o l a success in
        IsPlaced after
          (seen t (process_task (λ u s. (acts, Scheduled.is_finished after)) t r))
          (renew loop t o before after operations o)
  unfolding call
  call-IsPlaced l a success before operations r act runs timed made = go (loop.attempt l a)
    where
      go :
          (turn : Turn L R)
          → let (acts, after) = turned turn success in
            IsPlaced after
              (seen t (process_task (λ u s. (acts, Scheduled.is_finished after)) t r))
              (renew loop t o before after operations o)
      go (returns x) = let v = returns_seen r runs in (v.0, v.1 ∙ timed)
      go (waits l) =
          let v = waits_seen r runs in
          (v.0 ∙ act, v.3 ∙ timed, renew-task before l success operations made, inl (v.1, v.2))

  -- A resumption of a task that does not wait.
  pub resume-IsAt :
      (rest : List ℕ) (a : A) (success : Bool) (s : Session A L R)
      → is_waiting (s.port.reactor.states t) ≡ false
      → IsAt s
      → IsAt (resume loop t o rest a success s)
  unfolding resume advance
  resume-IsAt rest a success s runs h = go s.point h
    where
      r : Reactor
      r = s.port.reactor

      go :
          (p : Point L R)
          → IsPlaced p (seen t r) (s.port.operations o)
          → let (acts, after) = advance loop t o p (s.port.operations o).success a success in
            IsPlaced after
              (seen t (process_task (λ u w. (acts, Scheduled.is_finished after)) t (popped rest r)))
              (renew loop t o p after s.port.operations o)
      go (starting l) (act, run, q, timed) =
          call-IsPlaced l a success (starting l) s.port.operations (popped rest r) act runs timed
            (inl refl)
      go (pausing l expected) (act, timed, same, place) =
          elim (Bool-cases (s.port.operations o).success) [
            | inl good ↦ rw good (
                call-IsPlaced l a success (pausing l expected) s.port.operations (popped rest r) act
                  runs timed (inr same))
            | inr bad ↦ rw bad (let v = returns_seen (popped rest r) runs in (v.0, v.1 ∙ timed))
          ]
      go (finished x) (act, timed) = let v = returns_seen (popped rest r) runs in (v.0, v.1 ∙ timed)

  -- A task that waits is taken off the queue and not resumed.
  skip-IsAt :
      (body : Body) (rest : List ℕ) (s : Session A L R)
      → is_waiting (s.port.reactor.states t) ≡ true
      → IsAt s
      → IsAt (with_reactor loop t o (process_task body t (popped rest s.port.reactor)) s)
  unfolding process_task settle
  skip-IsAt body rest s idle h = rw idle (go s.point h)
    where
      go :
          (p : Point L R)
          → IsPlaced p (seen t s.port.reactor) (s.port.operations o)
          → IsPlaced p (seen t (popped rest s.port.reactor)) (s.port.operations o)
      go (starting l) h = absurd (cc (idle, h.1))
      go (pausing l success) (act, timed, same, inl h) = (act, timed, same, inl h)
      go (pausing l success) (act, timed, same, inr h) = absurd (cc (idle, h.0))
      go (finished x) h = h

  -- What an event of the operation does to its task, and to the operation.
  report-seen :
      (e : Event) (port : Ports.Port)
      → e.operation ≡ o
      → (port.operations o).task ≡ t
      → let after = Ports.report e port in
        let v = seen t after.reactor in
        (v.active ≡ contains port.reactor.active t)
        × (v.waiting ≡ false)
        × (v.queued ≡ true)
        × (v.timed ≡ has port.reactor.timers t)
        × ((after.operations o).task ≡ t)
        × ((after.operations o).success ≡ not (e.events.failed || e.events.hung_up))
  unfolding Ports.report complete wake update is_waiting
  report-seen e port same task =
      rw (same, task) (ground (arith, contains-concat port.reactor.queue t t, task))

  -- What epoll reports of the wait.
  pub report-IsAt :
      (l : L) (success : Bool) (e : Event) (s : Session A L R)
      → s.point ≡ pausing l success
      → e.operation ≡ o
      → not (e.events.failed || e.events.hung_up) ≡ success
      → IsAt s
      → IsAt (record s { port = Ports.report e s.port })
  report-IsAt l success e s at same result h =
      let after = Ports.report e s.port in
      let (act, timed, task, place) = IsAt-point (pausing l success) s at h in
      let v = report-seen e s.port same task in
      subst (λ p. IsPlaced p (seen t after.reactor) (after.operations o)) (sym at)
        (v.0 ∙ act, v.3 ∙ timed, v.4, inr (v.1, v.2, v.5 ∙ result))

  -- An event of another operation, of another task.
  elsewhere-IsAt :
      (e : Event) (s : Session A L R)
      → (s.port.operations e.operation).task ≢ t
      → e.operation ≢ o
      → IsAt s
      → IsAt (record s { port = Ports.report e s.port })
  unfolding Ports.report update
  elsewhere-IsAt e s other apart h =
      kept s.point (seen-complete (s.port.operations e.operation).task t s.port.reactor other)
        (same) h
    where
      same : (Ports.report e s.port).operations o ≡ s.port.operations o
      same = ground (arith, apart)

  pub Step-IsAt : {body : Body} {s u : Session A L R} → Step loop t o body s u → IsAt s → IsAt u
  Step-IsAt {s = s} (spawned u n) h = kept s.point (seen-spawn u t s.port.reactor n) refl h
  Step-IsAt {s = s} (polled now) h =
      kept s.point
        (seen-poll_timers now t s.port.reactor (IsPlaced-untimed s.point _ (s.port.operations o) h))
        refl h
  Step-IsAt {s = s} (elsewhere e other apart) h = elsewhere-IsAt e s other apart h
  Step-IsAt {body} {s} (processed u rest operations front n spares same) h =
      let r = s.port.reactor in
      kept s.point
        (seen-process_task body u t (popped rest r) n spares ∙ seen-popped u rest t r front n) same
        h
  Step-IsAt {body} {s} (skipped rest front idle) h = skip-IsAt body rest s idle h
  Step-IsAt {s = s} (resumed rest a success front runs) h = resume-IsAt rest a success s runs h
  Step-IsAt {s = s} (reported l success e at there same result) h =
      report-IsAt l success e s at same result h
