-- ===== src/Runtime/Workers/Stranded.antt =====
-- Several workers: the steps of each of them, and where they leave the tasks that have not returned.
use cppio.Common.{ℕ, ◌≡◌, true, Bool-cases, inl, inr, ◌⊎◌, arith, subst}
use cppio.Runtime.Sets.{contains, update, contains-concat, contains-erase}
use cppio.Runtime.Timer
use cppio.Runtime.Timer.{has}
use cppio.Runtime.Timer.Collision.{get_delay-has}
use cppio.Runtime.Reactor.{is_waiting, Reactor, schedule, settle}
use cppio.Runtime.Workers.{
  outside, System, goes, Body, pop, report, Step, takes, skips, enters, accesses, leaves, settles,
  reports, schedules, Reach, next, here, polls, marks, expire, mark,
}
use cppio.Runtime.Workers.Found.{
  registers_later, WaitsFirst, arms, is_awaited, carries, IsFound, IsPlaced, IsSound,
  IsPunctualStep, IsPunctualPath, arms-rousing, goes-IsFound,
}
use cppio.Runtime.Workers.Kept.{
  registers_later_first, access-IsFound, contains-front, carries_answer, leaves_answer,
  settle-IsFound, update-IsPlaced, rousing-IsPlaced,
}

module _ (body : Body) (first : (t : ℕ) (r : Reactor) → WaitsFirst (body t r).0) where
  Step-IsFound :
      (a worker : ℕ) {s u : System}
      → IsPlaced (s.places worker)
      → (contains s.reactor.active a ≡ true → IsFound a s)
      → (step : Step body worker s u) → IsPunctualStep step
      → contains u.reactor.active a ≡ true
      → IsFound a u
  unfolding expire mark pop report schedule settle update is_waiting arms carries registers_later
  Step-IsFound a worker {s} placed old (takes t rest e q) free act =
      goes-IsFound a worker _ _ _ s e (old (unfold goes in act)) (λ h k. ground (arith, h, k))
        (λ h k. ground (arith, h, k, contains-front t rest s.reactor.queue a q))
  Step-IsFound a worker {s} placed old (skips t e w) free act =
      goes-IsFound a worker _ _ _ s e (old (unfold goes in act)) (λ h k. ground (arith, h, k))
        (λ h k. ground (arith, h, k, w))
  Step-IsFound a worker {s} placed old (enters t rest returned e w b) free act =
      goes-IsFound a worker _ _ _ s e (old (unfold goes in act)) (λ h k. ground (arith, h, k))
        (λ h k. ground (arith, h, k))
  Step-IsFound a worker {s} placed old (accesses t x rest returned e) free act =
      access-IsFound a worker t x rest returned s e (subst IsPlaced e placed) old free
        (unfold goes in act)
  Step-IsFound a worker {s} placed old (leaves t returned e) free act =
      goes-IsFound a worker _ _ _ s e (old (unfold goes in act)) (λ h k. ground (arith, h, k))
        (λ h k. ground (arith, h, k, carries_answer a t _ (leaves_answer a t returned s.reactor h)))
  Step-IsFound a worker {s} placed old (settles t result e) free act =
      settle-IsFound a worker t result s e old (unfold goes in act)
  Step-IsFound a worker {s} placed old (reports t e i) free act =
      goes-IsFound a worker _ _ _ s e (old (unfold goes in act))
        (λ h k. ground (arith, h, k, contains-erase t s.reactor.interest a))
        (λ h k. ground (arith, h, k))
  Step-IsFound a worker {s} placed old (polls now e) free act =
      goes-IsFound a worker _ _ _ s e (old (unfold goes in act))
        (λ h k. ground (
          arith,
          h,
          k,
          get_delay-has now s.reactor.timers a,
          arms-rousing a (Timer.get_delay now s.reactor.timers).woken,
        ))
        (λ h k. ground (arith, h, k))
  Step-IsFound a worker {s} placed old (marks t later e) free act =
      goes-IsFound a worker _ _ _ s e (old (unfold goes in act)) (λ h k. ground (arith, h, k))
        (λ h k. ground (arith, h, k))
  Step-IsFound a worker {s} placed old (schedules t later e) free act =
      goes-IsFound a worker _ _ _ s e (old (unfold goes in act))
        (λ h k. ground (arith, h, k, arms-rousing a later))
        (λ h k. ground (arith, h, k, contains-concat s.reactor.queue t a))

  Step-IsPlaced :
      (worker : ℕ) {s u : System}
      → ((other : ℕ) → IsPlaced (s.places other))
      → Step body worker s u
      → (other : ℕ) → IsPlaced (u.places other)
  unfolding goes
  Step-IsPlaced worker {s} placed (takes t rest e q) = update-IsPlaced s.places worker _ placed tt
  Step-IsPlaced worker {s} placed (skips t e w) = update-IsPlaced s.places worker _ placed tt
  Step-IsPlaced worker {s} placed (enters t rest returned e w b) =
      update-IsPlaced s.places worker _ placed (subst (λ x. WaitsFirst x.0) b (first t s.reactor))
  Step-IsPlaced worker {s} placed (accesses t x rest returned e) =
      update-IsPlaced s.places worker _ placed
        (registers_later_first x rest (subst IsPlaced e (placed worker)))
  Step-IsPlaced worker {s} placed (leaves t returned e) =
      update-IsPlaced s.places worker _ placed tt
  Step-IsPlaced worker {s} placed (settles t result e) = update-IsPlaced s.places worker _ placed tt
  Step-IsPlaced worker {s} placed (reports t e i) = update-IsPlaced s.places worker _ placed tt
  Step-IsPlaced worker {s} placed (polls now e) =
      update-IsPlaced s.places worker _ placed
        (rousing-IsPlaced (Timer.get_delay now s.reactor.timers).woken)
  Step-IsPlaced worker {s} placed (marks t later e) = update-IsPlaced s.places worker _ placed tt
  Step-IsPlaced worker {s} placed (schedules t later e) =
      update-IsPlaced s.places worker _ placed (rousing-IsPlaced later)

  Step-IsSound :
      (worker : ℕ) {s u : System} (step : Step body worker s u)
      → IsPunctualStep step
      → IsSound s
      → IsSound u
  Step-IsSound worker step free (found, placed) = (
    (λ a act. Step-IsFound a worker (placed worker) (found a) step free act),
    Step-IsPlaced worker placed step,
  )

  Reach-IsSound_all :
      {s u : System} (path : Reach body s u) → IsPunctualPath path → IsSound s → IsSound u
  Reach-IsSound_all here free sound = sound
  Reach-IsSound_all (next worker path step) (before, free) sound =
      Step-IsSound worker step free (Reach-IsSound_all path before sound)

-- The workers are between two tasks.
abbrev pub AreOutside : System → Type 0
AreOutside s = (worker : ℕ) → s.places worker ≡ outside

-- Then each task that has not returned will be woken or is in the queue.
outside-IsFound :
    (a : ℕ) (s : System)
    → AreOutside s
    → IsFound a s
    → (is_awaited a s.reactor ≡ true) ⊎ (contains s.reactor.queue a ≡ true)
unfolding arms carries
outside-IsFound a s out found = elim (Bool-cases (is_waiting (s.reactor.states a))) [
  | inl waiting ↦ elim (found.0 waiting) [
    | inl i ↦ inl i
    | inr (worker, e) ↦ absurd (cc (subst (λ p. arms a p ≡ true) (out worker) e))
  ]
  | inr runs ↦ elim (found.1 runs) [
    | inl q ↦ inr q
    | inr (worker, e) ↦ absurd (cc (subst (λ p. carries a p ≡ true) (out worker) e))
  ]
]

-- Several workers, in any order of their steps: if every coroutine that waits registers its descriptor or starts
-- its timer after it, before it suspends, and no timer is started at a deadline that another has, then no wake-up
-- is lost. From a sound state only sound states are reached: a task that has not returned and waits is registered
-- or has a timer, or a worker will see to that or wake it; one that does not wait is in the queue or in the hands
-- of a worker.
pub Reach-IsSound :
    (body : Body) (s u : System)
    → ((t : ℕ) (r : Reactor) → WaitsFirst (body t r).0)
    → IsSound s
    → (path : Reach body s u) → IsPunctualPath path
    → IsSound u
Reach-IsSound body s u first sound path free = Reach-IsSound_all body first path free sound
