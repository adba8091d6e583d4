-- ===== src/Runtime/Workers/Found.antt =====
-- Several workers: where a task is found that has not returned, and the steps that keep it there.
use cppio.Common.{
  ◌+◌, ℕ, ◌≡◌, Bool, true, false, Bool-cases, inl, inr, ◌⊎◌, List, [], ◌∷◌, ◌==◌, arith,
  if◌then◌else◌, ◌||◌, not, refl,
}
use cppio.Runtime.Sets.{contains, update, contains-insert, contains-concat}
use cppio.Runtime.Timer.{has}
use cppio.Runtime.Timer.Collision.{IsFree}
use cppio.Runtime.Reactor.{wait, is_waiting, Reactor, spawn}
use cppio.Runtime.Workers.{
  Access, waits, registers, Place, outside, holds, resumes, answers, wakes, System, goes, Body,
  Step, accesses, Reach, next, here, starts, rouses, rousing,
}

-- The coroutine still registers its descriptor, or starts a timer.
unfoldable pub registers_later : List Access → Bool
registers_later [] = false
registers_later (registers true ∷ rest) = true
registers_later (starts now delay ∷ rest) = true
registers_later (a ∷ rest) = registers_later rest

-- A coroutine that waits registers or starts a timer after it, as `sleep` and the reads and writes on POSIX do.
abbrev pub WaitsFirst : List Access → Type 0
WaitsFirst [] = Unit
WaitsFirst (waits ∷ rest) = (registers_later rest ≡ true) × WaitsFirst rest
WaitsFirst (a ∷ rest) = WaitsFirst rest

-- The worker will register the task, start a timer for it, or wake it.
unfoldable pub arms : ℕ → Place → Bool
arms a (resumes t rest returned) = if t == a then registers_later rest else false
arms a (rouses t later) = t == a || contains later a
arms a (wakes t later) = contains later a
arms a _ = false

-- An event or a timer will wake the task.
abbrev pub is_awaited : ℕ → Reactor → Bool
is_awaited a r = contains r.interest a || has r.timers a

-- The worker has the task in its hands and will resume it, put it into the queue or let it end.
unfoldable pub carries : ℕ → Place → Bool
carries a (holds t) = t == a
carries a (resumes t rest returned) = t == a
carries a (answers t wait) = false
carries a (answers t _) = t == a
carries a (wakes t later) = t == a
carries a (rouses t later) = false
carries a outside = false

-- Some worker stands at a place of the kind.
abbrev pub Some : (Place → Bool) → (ℕ → Place) → Type 0
Some test places = (worker : ℕ) × (test (places worker) ≡ true)

-- A task that waits is registered or has a timer, or a worker will see to that or wake it; one that does not wait is in the queue, or a
-- worker has it in its hands.
abbrev pub IsFound : ℕ → System → Type 0
IsFound a s =
    (is_waiting (s.reactor.states a) ≡ true
      → (is_awaited a s.reactor ≡ true) ⊎ Some (arms a) s.places)
    × (is_waiting (s.reactor.states a) ≡ false
        → (contains s.reactor.queue a ≡ true) ⊎ Some (carries a) s.places)

abbrev pub IsPlaced : Place → Type 0
IsPlaced (resumes t rest returned) = WaitsFirst rest
IsPlaced _ = Unit

-- Every active task is found, and what the workers still do waits first.
abbrev pub IsSound : System → Type 0
IsSound s =
    ((a : ℕ) → contains s.reactor.active a ≡ true → IsFound a s)
    × ((worker : ℕ) → IsPlaced (s.places worker))

-- A timer that is started has a deadline that no other has.
abbrev pub IsPunctual : Access → Reactor → Type 0
IsPunctual (starts now delay) r = IsFree (now + delay) r.timers
IsPunctual _ r = Unit

abbrev pub IsPunctualStep :
    {body : Body} {worker : ℕ} {s u : System} → Step body worker s u → Type 0
IsPunctualStep {s = s} (accesses t a rest returned e) = IsPunctual a s.reactor
IsPunctualStep _ = Unit

-- Every timer that is started on the way has a deadline of its own.
abbrev pub IsPunctualPath : {body : Body} {s u : System} → Reach body s u → Type 0
IsPunctualPath here = Unit
IsPunctualPath (next worker path step) = IsPunctualPath path × IsPunctualStep step

pub arms-rousing : (a : ℕ) (later : List ℕ) → arms a (rousing later) ≡ contains later a
unfolding arms contains
arms-rousing a [] = refl
arms-rousing a (t ∷ later) = refl

pub carries-rousing : (a : ℕ) (later : List ℕ) → carries a (rousing later) ≡ false
unfolding carries
carries-rousing a [] = refl
carries-rousing a (t ∷ later) = refl

pub Some-update :
    {after : Bool} (test : Place → Bool) (places : ℕ → Place) (worker : ℕ) (place : Place)
    → (after || test place) ≡ true
    → (after ≡ true) ⊎ Some test (update places worker place)
unfolding update
Some-update {after} test places worker place h = elim (Bool-cases after) [
  | inl x ↦ inl x
  | inr x ↦ inr (worker, ground (arith, h, x))
]

-- What was found here or elsewhere is so behind a step that keeps what was found here.
pub Some-goes :
    {before after : Bool} (test : Place → Bool) (places : ℕ → Place) (worker : ℕ) (place : Place)
    → ((before || test (places worker)) ≡ true → (after || test place) ≡ true)
    → (before ≡ true) ⊎ Some test places
    → (after ≡ true) ⊎ Some test (update places worker place)
unfolding update
Some-goes test places worker place h (inl e) =
    Some-update test places worker place (h (ground (arith, e)))
Some-goes {before} {after} test places worker place h (inr (other, e)) = elim (Bool-cases after) [
  | inl x ↦ inl x
  | inr x ↦ elim (Bool-cases (other == worker)) [
    | inl same ↦ inr (worker, ground (arith, h, e, x, same))
    | inr differs ↦ inr (other, rw differs e)
  ]
]

-- A step of one worker keeps a task found, if it keeps what that worker and the reactor know of it.
pub goes-IsFound :
    (a worker : ℕ) (r : Reactor) (from place : Place) (s : System)
    → s.places worker ≡ from
    → IsFound a s
    → (is_waiting (r.states a) ≡ true
        → (not (is_waiting (s.reactor.states a)) || is_awaited a s.reactor || arms a from) ≡ true
        → (is_awaited a r || arms a place) ≡ true)
    → (is_waiting (r.states a) ≡ false
        → (is_waiting (s.reactor.states a) || contains s.reactor.queue a || carries a from) ≡ true
        → (contains r.queue a || carries a place) ≡ true)
    → IsFound a (goes worker r place s)
unfolding goes
goes-IsFound a worker r from place s e0 old w c =
    elim (Bool-cases (is_waiting (s.reactor.states a))) [
      | inl waited ↦ (
        (λ e.
            Some-goes (arms a) s.places worker place
              (λ h. w e (ground (arith, at_from (arms a), h))) (old.0 waited)),
        (λ e. Some-update (carries a) s.places worker place (c e (ground (arith, waited)))),
      )
      | inr ran ↦ (
        (λ e. Some-update (arms a) s.places worker place (w e (ground (arith, ran)))),
        (λ e.
            Some-goes (carries a) s.places worker place
              (λ h. c e (ground (arith, at_from (carries a), h))) (old.1 ran)),
      )
    ]
  where
    at_from : (test : Place → Bool) → test (s.places worker) ≡ test from
    at_from test = rw e0 refl

-- A task that is spawned is in the queue.
pub new-IsFound :
    (a worker u : ℕ) (place : Place) (s : System)
    → contains s.reactor.active a ≡ false
    → contains (spawn u s.reactor).active a ≡ true
    → IsFound a (goes worker (spawn u s.reactor) place s)
unfolding goes spawn update is_waiting
new-IsFound a worker u place s fresh act =
    let new : (u == a) ≡ true = ground (arith, act, fresh, contains-insert u s.reactor.active a) in
    (
      (λ h. absurd (ground (arith, h, new))),
      (λ h. inl (ground (arith, new, contains-concat s.reactor.queue u a))),
    )
