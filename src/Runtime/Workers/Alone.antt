-- ===== src/Runtime/Workers/Alone.antt =====
-- Several workers: what one worker reaches that goes on by itself.

use cppio.Common.{
  ℕ, ◌≡◌, ◌≢◌, ◌∙◌, refl, subst, Bool, true, false, List, [], ◌∷◌, arith, if◌then◌else◌, ap,
}
use cppio.Runtime.Sets.{update}
use cppio.Runtime.Reactor
use cppio.Runtime.Reactor.{
  ScheduleType, done, run, wait, Reactor, is_waiting, Action, sleeps, awaits, perform, perform_all,
  one_step, process_task, settle, wake, wake_all, poll_timers, schedule, complete,
}
use cppio.Runtime.Workers.{
  Access, waits, registers, spawns, access, Place, resumes, System, Body, goes, Step, accesses,
  Reach, next, pop, outside, holds, settles, takes, skips, enters, answers, here, leaves, starts,
  rousing, rouses, schedules, mark, wakes, marks,
}

-- What an action of the reactor's model does, one access at a time.
unfoldable pub expand : List Action → List Access
expand [] = []
expand (Reactor.spawns u ∷ acts) = spawns u ∷ expand acts
expand (sleeps now delay ∷ acts) = waits ∷ starts now delay ∷ expand acts
expand (awaits registered ∷ acts) = waits ∷ registers registered ∷ expand acts

-- The same coroutines, one access at a time.
abbrev pub accessed : Reactor.Body → Body
accessed body t r = (expand (body t r).0, (body t r).1)

pub access_all : ℕ → List Access → Reactor → Reactor
access_all t [] r = r
access_all t (a ∷ rest) r = access_all t rest (access t a r)

pub access_all-expand :
    (t : ℕ) (acts : List Action) (r : Reactor) → access_all t (expand acts) r ≡ perform_all t acts r
unfolding access_all expand perform_all perform access
access_all-expand t [] r = refl
access_all-expand t (Reactor.spawns u ∷ acts) r = access_all-expand t acts _
access_all-expand t (sleeps now delay ∷ acts) r = access_all-expand t acts _
access_all-expand t (awaits true ∷ acts) r = access_all-expand t acts _
access_all-expand t (awaits false ∷ acts) r = access_all-expand t acts _

-- The other workers stand where they stood.
abbrev pub Elsewhere : ℕ → System → System → Type 0
Elsewhere worker s u = (other : ℕ) → other ≢ worker → u.places other ≡ s.places other

pub goes-Elsewhere :
    (worker : ℕ) (r : Reactor) (place : Place) (s : System)
    → Elsewhere worker s (goes worker r place s)
unfolding goes update
goes-Elsewhere worker r place s other n = ground (arith, n)

pub goes-place :
    (worker : ℕ) (r : Reactor) (place : Place) (s : System)
    → (goes worker r place s).places worker ≡ place
unfolding goes update
goes-place worker r place s = ground arith

-- What a worker reaches alone: the reactor, and where it then stands.
abbrev pub Alone : Body → ℕ → System → Reactor → Place → Type 0
Alone body worker s r place =
    (u : System) × Reach body s u
    × (u.reactor ≡ r)
    × (u.places worker ≡ place)
    × Elsewhere worker s u

module _ (body : Body) (worker : ℕ) (s : System) where
  pub then_goes :
      {r : Reactor} {from : Place} (r' : Reactor) (place : Place)
      → ((u : System)
          → u.reactor ≡ r
          → u.places worker ≡ from
          → Step body worker u (goes worker r' place u))
      → Alone body worker s r from
      → Alone body worker s r' place
  unfolding goes
  then_goes r' place step (u, path, e, p, others) = (
    goes worker r' place u,
    next worker path (step u e p),
    refl,
    goes-place worker r' place u,
    (λ other n. goes-Elsewhere worker r' place u other n ∙ others other n),
  )

  pub accesses-Alone :
      (t : ℕ) (rest : List Access) (returned : Bool) (r : Reactor)
      → Alone body worker s r (resumes t rest returned)
      → Alone body worker s (access_all t rest r) (resumes t [] returned)
  unfolding access_all
  accesses-Alone t [] returned r at_ = at_
  accesses-Alone t (a ∷ rest) returned r at_ = accesses-Alone t rest returned (access t a r) (
      then_goes (access t a r) (resumes t rest returned)
        (λ u e p.
          subst (λ x. Step body worker u (goes worker (access t a x) (resumes t rest returned) u)) e
            (accesses t a rest returned p))
        at_)

  pub takes-Alone :
      (t : ℕ) (rest : List ℕ)
      → s.places worker ≡ outside
      → s.reactor.queue ≡ t ∷ rest
      → Alone body worker s (pop rest s.reactor) (holds t)
  takes-Alone t rest p q =
      then_goes (pop rest s.reactor) (holds t)
        (λ u e o.
          subst (λ x. Step body worker u (goes worker (pop rest x) (holds t) u)) e
            (takes t rest o (ap (λ x. x.queue) e ∙ q)))
        (s, here, refl, p, (λ other n. refl))

  pub skips-Alone :
      (t : ℕ) (r : Reactor)
      → is_waiting (r.states t) ≡ true
      → Alone body worker s r (holds t)
      → Alone body worker s r outside
  skips-Alone t r w = then_goes r outside (λ u e p.
      subst (λ x. Step body worker u (goes worker x outside u)) e
        (skips t p (ap (λ x. is_waiting (x.states t)) e ∙ w)))

  pub enters-Alone :
      (t : ℕ) (r : Reactor)
      → is_waiting (r.states t) ≡ false
      → Alone body worker s r (holds t)
      → Alone body worker s r (resumes t (body t r).0 (body t r).1)
  enters-Alone t r w = then_goes r (resumes t (body t r).0 (body t r).1) (λ u e p.
      subst (λ x. Step body worker u (goes worker x (resumes t (body t r).0 (body t r).1) u)) e
        (enters t (body t r).0 (body t r).1 p (ap (λ x. is_waiting (x.states t)) e ∙ w)
          (ap (body t) e)))

  pub leaves-Alone :
      (t : ℕ) (returned : Bool) (r : Reactor)
      → Alone body worker s r (resumes t [] returned)
      → Alone body worker s (settle t (if returned then done else r.states t) r) outside
  leaves-Alone t returned r at_ =
      then_goes (settle t result r) outside
        (λ u e p.
          subst (λ x. Step body worker u (goes worker (settle t result x) outside u)) e
            (settles t result p))
        (then_goes r (answers t result)
          (λ u e p.
            subst
              (λ x.
                Step body worker u
                  (goes worker x (answers t (if returned then done else x.states t)) u))
              e (leaves t returned p))
          at_)
    where
      result : ScheduleType
      result = if returned then done else r.states t

  pub rouses-Alone :
      (t : ℕ) (later : List ℕ) (r : Reactor)
      → Alone body worker s r (rouses t later)
      → Alone body worker s (wake t r) (rousing later)
  unfolding wake schedule mark
  rouses-Alone t later r at_ =
      then_goes (wake t r) (rousing later)
        (λ u e p.
          subst (λ x. Step body worker u (goes worker (schedule t x) (rousing later) u)) e
            (schedules t later p))
        (then_goes (mark t r) (wakes t later)
          (λ u e p.
            subst (λ x. Step body worker u (goes worker (mark t x) (wakes t later) u)) e
              (marks t later p))
          at_)

  pub rousing-Alone :
      (ts : List ℕ) (r : Reactor)
      → Alone body worker s r (rousing ts)
      → Alone body worker s (wake_all ts r) outside
  unfolding wake_all
  rousing-Alone [] r at_ = at_
  rousing-Alone (t ∷ ts) r at_ = rousing-Alone ts (wake t r) (rouses-Alone t ts r at_)
