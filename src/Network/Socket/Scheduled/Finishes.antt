-- ===== src/Network/Socket/Scheduled/Finishes.antt =====
-- basic_reactor.inl, epoll.cpp: a read or write that the scheduler runs returns, where its loop does.
use cppio.Runtime.Timer.{has}
use cppio.Runtime.Sets.{contains}
use mathlib.Core.Option.{some-injective}
use cppio.Common.{
  ℕ, refl, List, [], ◌∷◌, ◌++◌, ◌≡◌, Bool, some, if◌then◌else◌, Option, ◌⊎◌, false, inl, sym, true,
  arith, not, inr, ◌∙◌, ◌||◌, subst, ap, append_assoc,
}
use cppio.Runtime.Reactor.{Body, is_waiting}
use cppio.Runtime.Ports
use cppio.Network.Socket.Loops.{Loop, Turn, waits, returns, run_loop}
use cppio.Network.Socket.Scheduled.{
  Session, pausing, Reach, here, next, resume, resumed, reported, started,
}
use cppio.Network.Socket.Scheduled.Served.{IsAt, resume-IsAt, Step-IsAt}
use cppio.Network.Socket.Scheduled.Resumptions.{
  event, IsAbout, HasReturned, about_returns, about_waits, pausing_registered, reported_about,
  refused_returns, about-called, refused-called,
}

module _ {A L R : Type 0} (loop : Loop A L R) (t o : ℕ) (body : Body) where
  abbrev Goes : Session A L R → Session A L R → Type 0
  Goes = Reach loop t o body

  joined : {s u v : Session A L R} → Goes s u → Goes u v → Goes s v
  joined p here = p
  joined p (next q step) = next (joined p q) step

  Turn-cases : (turn : Turn L R) → ((r : R) × (turn ≡ returns r)) ⊎ ((l : L) × (turn ≡ waits l))
  Turn-cases (returns r) = inl (r, refl)
  Turn-cases (waits l) = inr (l, refl)

  -- What the loop makes of an answer.
  abbrev turn_answer : List (A × Bool) → Bool → Turn L R → Option R
  turn_answer rest success (returns r) = some r
  turn_answer rest success (waits l) =
      if success then run_loop loop l rest else some (loop.refused l)

  run_loop_cons :
      (l : L) (a : A) (success : Bool) (rest : List (A × Bool))
      → run_loop loop l ((a, success) ∷ rest) ≡ turn_answer rest success (loop.attempt l a)
  unfolding run_loop
  run_loop_cons l a success rest = go (loop.attempt l a)
    where
      go :
          (turn : Turn L R)
          → elim turn [
            | returns r ↦ some r
            | waits l' ↦ if success then run_loop loop l' rest else some (loop.refused l')
          ]
            ≡ turn_answer rest success turn
      go (returns r) = refl
      go (waits l') = refl

  -- The scheduler reaches a state in which the coroutine has returned `r`, and the answers of its calls are the first
  -- of those given.
  abbrev pub CanReturn : R → List (A × Bool) → Session A L R → Type 0
  CanReturn r answers s =
      (u : Session A L R) × Goes s u
      × HasReturned loop t o r u
      × (left : List (A × Bool)) × (u.history ++ left ≡ s.history ++ answers)

  -- From a state in which the coroutine is about to call, with an answer that makes it wait, to the state in which
  -- epoll has reported the wait.
  about_waits_reported :
      (l l' : L) (a : A) (success : Bool) (s : Session A L R)
      → loop.attempt l a ≡ waits l'
      → IsAbout loop t o l s
      → IsAt loop t o s
      → (u : Session A L R) × Goes s u
        × IsAt loop t o u
        × (u.port.reactor.queue ≡ t ∷ [])
        × (is_waiting (u.port.reactor.states t) ≡ false)
        × (u.point ≡ pausing l' success)
        × ((u.port.operations o).success ≡ success)
        × (u.history ≡ s.history ++ (a, success) ∷ [])
  about_waits_reported l l' a success s answer about at =
      let after = resume loop t o [] a success s in
      let (point, empty) = about_waits loop t o l l' a success s answer about in
      let there = resume-IsAt loop t o [] a success s about.1 at in
      let wait_over =
        reported l' success (event o success) point
          (pausing_registered loop t o l' success after point empty there) refl
          (event-success success) in
      let (queue, runs, result) = reported_about loop t o l' success after point empty there in
      (
        record after { port = Ports.report (event o success) after.port },
        next (next here (resumed [] a success about.0 about.1)) wait_over,
        Step-IsAt loop t o wait_over there,
        queue,
        runs,
        point,
        result,
        about-called loop t o l a success s about,
      )
    where
      event-success : (b : Bool) → not (not b || false) ≡ b
      event-success true = refl
      event-success false = refl

  -- Behind the wait the coroutine goes on with its next call, or returns.
  wait_over_returns :
      (l : L) (a : A) (success : Bool) (rest : List (A × Bool)) (r : R) (s : Session A L R)
      → (if success then run_loop loop l rest else some (loop.refused l)) ≡ some r
      → IsAt loop t o s
      → s.port.reactor.queue ≡ t ∷ []
      → is_waiting (s.port.reactor.states t) ≡ false
      → s.point ≡ pausing l success
      → (s.port.operations o).success ≡ success
      → (run_loop loop l rest ≡ some r → IsAbout loop t o l s → CanReturn r rest s)
      → CanReturn r rest s
  wait_over_returns l a true rest r s gives at queue runs point result goes_on =
      goes_on gives (queue, runs, inr (point, result))
  wait_over_returns l a false rest r s gives at queue runs point result goes_on =
      let ends = refused_returns loop t o l a false s queue runs point result at in
      let same : loop.refused l ≡ r = some-injective (loop.refused l) r gives in
      (
        resume loop t o [] a false s,
        next here (resumed [] a false queue runs),
        subst (λ y. HasReturned loop t o y (resume loop t o [] a false s)) same ends,
        rest,
        ap (λ xs. xs ++ rest) (refused-called loop t o l a false s point result),
      )

  -- From a state in which the coroutine is about to make its next call, it can return what its loop gives.
  about-CanReturn :
      (l : L) (answers : List (A × Bool)) (r : R) (s : Session A L R)
      → run_loop loop l answers ≡ some r
      → IsAbout loop t o l s
      → IsAt loop t o s
      → CanReturn r answers s
  about-CanReturn l [] r s gives about at = absurd (unfold run_loop in cc gives)
  about-CanReturn l ((a, success) ∷ rest) r s gives about at =
      let answer = sym (run_loop_cons l a success rest) ∙ gives in
      elim (Turn-cases (loop.attempt l a)) [
        | inl (x, e) ↦
            let same : x ≡ r =
              some-injective x r (ap (turn_answer rest success) (sym e) ∙ answer) in
            let after = resume loop t o [] a success s in
            (
              after,
              next here (resumed [] a success about.0 about.1),
              subst (λ y. HasReturned loop t o y after) same
                  (about_returns loop t o l a success x s e about at),
              rest,
              ap (λ xs. xs ++ rest) (about-called loop t o l a success s about)
                  ∙ append_assoc s.history ((a, success) ∷ []) rest,
            )
        | inr (l', e) ↦
            let (u, path, there, queue, runs, point, result, history) =
              about_waits_reported l l' a success s e about at in
            let (v, onward, ends, left, used) =
              wait_over_returns l' a success rest r u
                (ap (turn_answer rest success) (sym e) ∙ answer) there queue runs point result
                (λ more ready. about-CanReturn l' rest r u more ready there) in
            (
              v,
              joined path onward,
              ends,
              left,
              used
                  ∙ ap (λ xs. xs ++ rest) history
                  ∙ append_assoc s.history ((a, success) ∷ []) rest,
            )
      ]

  -- The port of a reactor in which the task is new, and alone in the queue.
  abbrev pub IsFresh : Ports.Port → Type 0
  IsFresh port =
      (port.reactor.queue ≡ t ∷ [])
      × (contains port.reactor.active t ≡ true)
      × (is_waiting (port.reactor.states t) ≡ false)
      × (has port.reactor.timers t ≡ false)

  -- The scheduler can run each of the reads and writes to its end, for all answers with which its loop returns: from a
  -- state in which its task is new and alone in the queue, it reaches a state in which the coroutine has returned what
  -- the loop gives, the answers of its calls were the first of these, and the task is active no longer and in no queue.
  pub started-CanReturn :
      (l : L) (answers : List (A × Bool)) (r : R) (port : Ports.Port)
      → IsFresh port
      → run_loop loop l answers ≡ some r
      → CanReturn r answers (started l port)
  started-CanReturn l answers r port (queue, act, runs, timed) gives =
      about-CanReturn l answers r (started l port) gives (queue, runs, inl refl)
        (act, runs, queue_has, timed)
    where
      queue_has : contains port.reactor.queue t ≡ true
      queue_has = unfold contains in rw queue (ground arith)
