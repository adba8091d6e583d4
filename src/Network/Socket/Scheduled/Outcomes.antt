-- ===== src/Network/Socket/Scheduled/Outcomes.antt =====
-- basic_reactor.inl, epoll.cpp: what a read or write that the scheduler runs will return.
use cppio.Runtime.Ports.{Overlapped}
use cppio.Runtime.Reactor.{Body, is_waiting}
use cppio.Runtime.Reactor.Frame.{Seen, seen}
use cppio.Common.{
  ℕ, refl, List, ◌∷◌, ◌++◌, true, false, some, inl, inr, Bool, ◌≡◌, Option, if◌then◌else◌,
  append_assoc, ◌∙◌,
}
use cppio.Network.Socket.Loops.{Loop, Turn, waits, returns, run_loop}
use cppio.Network.Socket.Scheduled.{
  Session, Point, starting, pausing, finished, Step, Reach, here, next, spawned, polled, elsewhere,
  processed, skipped, resumed, reported, advance, resume, call, called, turned,
}
use cppio.Network.Socket.Scheduled.Served.{IsPlaced, IsAt, Step-IsAt}

module _ {A L R : Type 0} (loop : Loop A L R) (t o : ℕ) where
  -- What the coroutine will return if the rest of its calls have these answers.
  abbrev pub outcome : Point L R → List (A × Bool) → Option R
  outcome (starting l) rest = run_loop loop l rest
  outcome (pausing l success) rest = if success then run_loop loop l rest else some (loop.refused l)
  outcome (finished r) rest = some r

  -- The rest of the calls go on where the history ends.
  abbrev pub Continues : L → Session A L R → Type 0
  Continues l s =
      (rest : List (A × Bool)) → run_loop loop l (s.history ++ rest) ≡ outcome s.point rest

  call-outcome :
      (l : L) (a : A) (success : Bool) (more : List (A × Bool))
      → run_loop loop l ((a, success) ∷ more) ≡ outcome (call loop t o l a success).1 more
  unfolding call run_loop
  call-outcome l a success more = go (loop.attempt l a)
    where
      go :
          (turn : Turn L R)
          → elim turn [
            | returns r ↦ some r
            | waits l' ↦ if success then run_loop loop l' more else some (loop.refused l')
          ]
            ≡ outcome (turned turn success).1 more
      go (returns r) = refl
      go (waits l') = refl

  -- What a coroutine will return stays the same when it is resumed.
  advance-outcome :
      (p : Point L R) (v : Seen) (op : Overlapped) (a : A) (success : Bool) (more : List (A × Bool))
      → v.waiting ≡ false
      → IsPlaced loop t o p v op
      → outcome p (called loop t o p op.success a success ++ more)
        ≡ outcome (advance loop t o p op.success a success).1 more
  unfolding advance called
  advance-outcome (starting l) v op a success more runs h = call-outcome l a success more
  advance-outcome (pausing l expected) v op a success more runs (act, timed, same, inl h) =
      absurd (cc (runs, h.0))
  advance-outcome (pausing l true) v op a success more runs (act, timed, same, inr h) =
      rw h.2 (call-outcome l a success more)
  advance-outcome (pausing l false) v op a success more runs (act, timed, same, inr h) = rw h.2 refl
  advance-outcome (finished r) v op a success more runs h = refl

  -- The answers of the calls that a resumption makes go on with those before.
  resume-Continues :
      (rest : List ℕ) (a : A) (success : Bool) (l : L) (s : Session A L R)
      → is_waiting (s.port.reactor.states t) ≡ false
      → IsAt loop t o s
      → Continues l s
      → Continues l (resume loop t o rest a success s)
  unfolding resume
  resume-Continues rest a success l s runs h continues more =
      let op = s.port.operations o in
      let made = called loop t o s.point op.success a success in
      rw (append_assoc s.history made more) (
        continues (made ++ more)
        ∙ advance-outcome s.point (seen t s.port.reactor) op a success more runs h)

  Step-Continues :
      {body : Body} {s u : Session A L R} (l : L)
      → Step loop t o body s u
      → IsAt loop t o s
      → Continues l s
      → Continues l u
  Step-Continues l (spawned u n) h k = k
  Step-Continues l (polled now) h k = k
  Step-Continues l (elsewhere e other apart) h k = k
  Step-Continues l (processed u rest operations front n spares same) h k = k
  Step-Continues l (skipped rest front idle) h k = k
  Step-Continues {s = s} l (resumed rest a success front runs) h k =
      resume-Continues rest a success l s runs h k
  Step-Continues l (reported m success e at there same result) h k = k

  -- In every state that the scheduler reaches from one where the coroutine is about to start, its task stands where
  -- its point says, and the answers of its calls, with those to come, give what it will return.
  pub Reach-IsAt :
      {body : Body} {s u : Session A L R} (l : L)
      → Reach loop t o body s u
      → IsAt loop t o s
      → Continues l s
      → IsAt loop t o u × Continues l u
  Reach-IsAt l here h k = (h, k)
  Reach-IsAt l (next path step) h k =
      let (g, c) = Reach-IsAt l path h k in (Step-IsAt loop t o step g, Step-Continues l step g c)
