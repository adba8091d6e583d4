-- ===== src/Network/Socket/Scheduled/Resumptions.antt =====
-- basic_reactor.inl, epoll.cpp: what one resumption of a read or write does, whose task is alone in the queue, and what
-- the event behind its wait does.
use cppio.Runtime.Reactor.Tracking.{popped}
use cppio.Runtime.Sets.{update, contains}
use cppio.Common.{
  ℕ, refl, [], ◌∷◌, Bool, ◌≡◌, false, true, inl, ◌∙◌, ap, not, inr, ◌⊎◌, arith, subst, append-nil,
  ◌++◌,
}
use cppio.Runtime.Reactor.{
  one_step, process_task, perform_all, perform, settle, Reactor, is_waiting, awaits, complete, wake,
}
use cppio.Runtime.Ports
use cppio.Network.Socket.Loops.{Loop, waits, returns}
use cppio.Network.Socket.Scheduled.{
  Session, Point, starting, pausing, finished, Step, Reach, here, next, advance, resume, call,
  called, renew, resumed, reported, with_reactor,
}
use cppio.Network.Socket.Scheduled
use cppio.Network.Socket.Scheduled.Served.{IsAt, IsAt-point, resume-IsAt}

-- The event that epoll gives for a descriptor that is ready, or has failed.
abbrev pub event : ℕ → Bool → Ports.Event
event o success = record {
  operation = o;
  events = record {
    readable = true;
    writable = true;
    failed = not success;
    hung_up = false;
    one_shot = true;
  };
}

module _ {A L R : Type 0} (loop : Loop A L R) (t o : ℕ) where
  -- The task is alone in the queue, and the coroutine is about to make its next call.
  abbrev pub IsAbout : L → Session A L R → Type 0
  IsAbout l s =
      (s.port.reactor.queue ≡ t ∷ [])
      × (is_waiting (s.port.reactor.states t) ≡ false)
      × ((s.point ≡ starting l)
          ⊎ ((s.point ≡ pausing l true) × ((s.port.operations o).success ≡ true)))

  -- A session in which the coroutine has returned `r` and its task has ended.
  abbrev pub HasReturned : R → Session A L R → Type 0
  HasReturned r s =
      (s.point ≡ finished r)
      × (contains s.port.reactor.active t ≡ false)
      × (s.port.reactor.queue ≡ [])

  pub about-advance :
      (l : L) (a : A) (success : Bool) (s : Session A L R)
      → IsAbout l s
      → advance loop t o s.point (s.port.operations o).success a success ≡ call loop t o l a success
  unfolding advance
  about-advance l a success s (q, runs, inl at) = rw at refl
  about-advance l a success s (q, runs, inr (at, good)) = rw (at, good) refl

  pub about-called :
      (l : L) (a : A) (success : Bool) (s : Session A L R)
      → IsAbout l s
      → (resume loop t o [] a success s).history ≡ s.history ++ (a, success) ∷ []
  unfolding resume called
  about-called l a success s (q, runs, inl at) = rw at refl
  about-called l a success s (q, runs, inr (at, good)) = rw (at, good) refl

  pub refused-called :
      (l : L) (a : A) (success : Bool) (s : Session A L R)
      → s.point ≡ pausing l false
      → (s.port.operations o).success ≡ false
      → (resume loop t o [] a success s).history ≡ s.history
  unfolding resume called
  refused-called l a success s point bad = rw (point, bad) (append-nil s.history)

  waits_queue :
      (r : Reactor)
      → is_waiting (r.states t) ≡ false
      → (process_task (λ u s. (awaits true ∷ [], false)) t r).queue ≡ r.queue
  unfolding process_task one_step perform_all perform settle update is_waiting
  waits_queue r runs = rw runs (ground arith)

  returns_queue :
      (r : Reactor)
      → is_waiting (r.states t) ≡ false
      → (process_task (λ u s. ([], true)) t r).queue ≡ r.queue
  unfolding process_task one_step perform_all settle
  returns_queue r runs = rw runs refl

  -- The call returns.
  pub about_returns :
      (l : L) (a : A) (success : Bool) (r : R) (s : Session A L R)
      → loop.attempt l a ≡ returns r
      → IsAbout l s
      → IsAt loop t o s
      → HasReturned r (resume loop t o [] a success s)
  about_returns l a success r s answer about at =
      let after = resume loop t o [] a success s in
      let (point, empty) = moved in
      (
        point,
        (IsAt-point loop t o (finished r) after point
            (resume-IsAt loop t o [] a success s about.1 at)).0,
        empty,
      )
    where
      moved :
          let after = resume loop t o [] a success s in
          (after.point ≡ finished r) × (after.port.reactor.queue ≡ [])
      moved =
          let made : call loop t o l a success ≡ ([], finished r) =
            unfold call in ap (λ turn. Scheduled.turned turn success) answer in
          unfold resume in
          rw (about-advance l a success s about ∙ made)
            (refl, returns_queue (popped [] s.port.reactor) about.1)

  -- The call waits, and its task with it.
  pub about_waits :
      (l l' : L) (a : A) (success : Bool) (s : Session A L R)
      → loop.attempt l a ≡ waits l'
      → IsAbout l s
      → let after = resume loop t o [] a success s in
        (after.point ≡ pausing l' success) × (after.port.reactor.queue ≡ [])
  unfolding resume
  about_waits l l' a success s answer about =
      let made : call loop t o l a success ≡ (awaits true ∷ [], pausing l' success) =
        unfold call in ap (λ turn. Scheduled.turned turn success) answer in
      rw (about-advance l a success s about ∙ made)
        (refl, waits_queue (popped [] s.port.reactor) about.1)

  pub pausing_registered :
      (l : L) (success : Bool) (s : Session A L R)
      → s.point ≡ pausing l success
      → s.port.reactor.queue ≡ []
      → IsAt loop t o s
      → contains s.port.reactor.interest t ≡ true
  pausing_registered l success s point empty at =
      elim (IsAt-point loop t o (pausing l success) s point at).3 [
        | inl h ↦ h.1
        | inr h ↦ absurd (unfold contains in cc (subst (λ q. contains q t ≡ true) empty h.1))
      ]

  -- Epoll reports the wait.
  pub reported_about :
      (l : L) (success : Bool) (s : Session A L R)
      → s.point ≡ pausing l success
      → s.port.reactor.queue ≡ []
      → IsAt loop t o s
      → let after = Ports.report (event o success) s.port in
        (after.reactor.queue ≡ t ∷ [])
        × (is_waiting (after.reactor.states t) ≡ false)
        × ((after.operations o).success ≡ success)
  unfolding Ports.report complete wake update is_waiting
  reported_about l success s point empty at =
      let task = (IsAt-point loop t o (pausing l success) s point at).2 in
      rw (task, empty) (ground arith)

  -- The wait has failed.
  pub refused_returns :
      (l : L) (a : A) (success : Bool) (s : Session A L R)
      → s.port.reactor.queue ≡ t ∷ []
      → is_waiting (s.port.reactor.states t) ≡ false
      → s.point ≡ pausing l false
      → (s.port.operations o).success ≡ false
      → IsAt loop t o s
      → HasReturned (loop.refused l) (resume loop t o [] a success s)
  refused_returns l a success s queue runs point bad at =
      let after = resume loop t o [] a success s in
      let (ends, empty) = moved in
      (
        ends,
        (IsAt-point loop t o (finished (loop.refused l)) after ends
            (resume-IsAt loop t o [] a success s runs at)).0,
        empty,
      )
    where
      moved :
          let after = resume loop t o [] a success s in
          (after.point ≡ finished (loop.refused l)) × (after.port.reactor.queue ≡ [])
      moved =
          unfold resume advance in
          rw (point, bad) (refl, returns_queue (popped [] s.port.reactor) runs)
