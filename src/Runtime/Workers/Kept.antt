-- ===== src/Runtime/Workers/Kept.antt =====
-- Several workers: what a coroutine does, and what becomes of its answer.
use cppio.Common.{
  ℕ, ◌≡◌, Bool, true, false, Bool-cases, inl, inr, List, [], ◌∷◌, ◌==◌, arith, if◌then◌else◌, ◌||◌,
  refl,
}
use cppio.Runtime.Sets.{contains, update, contains-insert, contains-concat, contains-erase}
use cppio.Runtime.Timer.Collision.{has-add}
use cppio.Runtime.Reactor.{
  start_timer, wait, is_waiting, Reactor, task_wait, cancel_wait, add_for_read, spawn, settle,
  ScheduleType, done, run,
}
use cppio.Runtime.Workers.{
  Access, waits, registers, Place, outside, resumes, answers, System, goes, spawns, access, cancels,
  starts, rousing,
}
use cppio.Runtime.Workers.Found.{
  registers_later, WaitsFirst, arms, carries, IsFound, IsPlaced, IsPunctual, goes-IsFound,
  new-IsFound,
}

pub registers_later_first :
    (a : Access) (rest : List Access) → WaitsFirst (a ∷ rest) → WaitsFirst rest
registers_later_first waits rest h = h.1
registers_later_first cancels rest h = h
registers_later_first (registers b) rest h = h
registers_later_first (starts now delay) rest h = h
registers_later_first (spawns u) rest h = h

pub access-IsFound :
    (a worker t : ℕ) (x : Access) (rest : List Access) (returned : Bool) (s : System)
    → s.places worker ≡ resumes t (x ∷ rest) returned
    → WaitsFirst (x ∷ rest)
    → (contains s.reactor.active a ≡ true → IsFound a s)
    → IsPunctual x s.reactor
    → contains (access t x s.reactor).active a ≡ true
    → IsFound a (goes worker (access t x s.reactor) (resumes t rest returned) s)
unfolding start_timer access task_wait cancel_wait add_for_read spawn update is_waiting arms carries
    registers_later
access-IsFound a worker t waits rest returned s e first old free act =
    goes-IsFound a worker _ _ _ s e (old act) (λ h k. ground (arith, h, k, first.0))
      (λ h k. ground (arith, h, k))
access-IsFound a worker t cancels rest returned s e first old free act =
    goes-IsFound a worker _ _ _ s e (old act) (λ h k. ground (arith, h, k))
      (λ h k. ground (arith, h, k))
access-IsFound a worker t (registers true) rest returned s e first old free act =
    goes-IsFound a worker _ _ _ s e (old act)
      (λ h k. ground (arith, h, k, contains-insert t s.reactor.interest a))
      (λ h k. ground (arith, h, k))
access-IsFound a worker t (registers false) rest returned s e first old free act =
    goes-IsFound a worker _ _ _ s e (old act) (λ h k. ground (arith, h, k))
      (λ h k. ground (arith, h, k))
access-IsFound a worker t (starts now delay) rest returned s e first old free act =
    goes-IsFound a worker _ _ _ s e (old act)
      (λ h k. ground (arith, h, k, has-add now delay t s.reactor.timers a free))
      (λ h k. ground (arith, h, k))
access-IsFound a worker t (spawns u) rest returned s e first old free act =
    elim (Bool-cases (contains s.reactor.active a)) [
      | inl was ↦
          goes-IsFound a worker _ _ _ s e (old was) (λ h k. ground (arith, h, k))
            (λ h k. ground (arith, h, k, contains-concat s.reactor.queue u a))
      | inr fresh ↦ new-IsFound a worker u _ s fresh act
    ]

pub contains-front :
    (t : ℕ) (rest queue : List ℕ) (a : ℕ)
    → queue ≡ t ∷ rest
    → contains queue a ≡ (t == a || contains rest a)
unfolding contains
contains-front t rest queue a q = rw q refl

pub carries_answer :
    (a t : ℕ) (result : ScheduleType)
    → (t == a ≡ true → is_waiting result ≡ false)
    → carries a (answers t result) ≡ (t == a)
unfolding carries is_waiting
carries_answer a t run h = refl
carries_answer a t done h = refl
carries_answer a t wait h = ground (arith, h)

pub leaves_answer :
    (a t : ℕ) (returned : Bool) (r : Reactor)
    → is_waiting (r.states a) ≡ false
    → t == a ≡ true
    → is_waiting (if returned then done else r.states t) ≡ false
unfolding is_waiting
leaves_answer a t true r h e = refl
leaves_answer a t false r h e = ground (arith, h, e)

pub settle-IsFound :
    (a worker t : ℕ) (result : ScheduleType) (s : System)
    → s.places worker ≡ answers t result
    → (contains s.reactor.active a ≡ true → IsFound a s)
    → contains (settle t result s.reactor).active a ≡ true
    → IsFound a (goes worker (settle t result s.reactor) outside s)
unfolding settle arms carries
settle-IsFound a worker t run s e old act =
    goes-IsFound a worker _ _ _ s e (old act) (λ h k. ground (arith, h, k))
      (λ h k. ground (arith, h, k, contains-concat s.reactor.queue t a))
settle-IsFound a worker t wait s e old act =
    goes-IsFound a worker _ _ _ s e (old act) (λ h k. ground (arith, h, k))
      (λ h k. ground (arith, h, k))
settle-IsFound a worker t done s e old act =
    goes-IsFound a worker _ _ _ s e (old (ground (arith, act, contains-erase t s.reactor.active a)))
      (λ h k. ground (arith, h, k))
      (λ h k. ground (arith, h, k, act, contains-erase t s.reactor.active a))

pub update-IsPlaced :
    (places : ℕ → Place) (worker : ℕ) (place : Place)
    → ((other : ℕ) → IsPlaced (places other))
    → IsPlaced place
    → (other : ℕ) → IsPlaced (update places worker place other)
unfolding update
update-IsPlaced places worker place all new other = go (other == worker)
  where
    go : (b : Bool) → IsPlaced (if b then place else places other)
    go true = new
    go false = all other

pub rousing-IsPlaced : (later : List ℕ) → IsPlaced (rousing later)
rousing-IsPlaced [] = tt
rousing-IsPlaced (t ∷ later) = tt
