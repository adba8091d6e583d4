-- ===== src/Runtime/Reactor/Sleep.antt =====
-- sleep.cpp, timer_pool.cpp: a task that sleeps is woken when its deadline is reached, and not before.
use cppio.Common.{
  ℕ, ◌+◌, ◌<◌, ◌≤◌, ◌≡◌, refl, sym, ap, ◌∙◌, subst, arith, Bool-cases, inl, inr, true, false, not,
  ◌||◌, [], ◌∷◌, ◌++◌, map, All, ltb, leb,
}
use cppio.Runtime.Sets.{contains, update}
use cppio.Runtime.Timer
use cppio.Runtime.Timer.{Pool, has, get_delay}
use cppio.Runtime.Timer.Due.{IsOrdered, add-IsOrdered, get_delay-TakesDue, Due}
use cppio.Runtime.Timer.Collision.{IsFree, has-add}
use cppio.Runtime.Reactor.{Reactor, is_waiting, perform, sleeps, poll_timers}
use cppio.Runtime.Reactor.Actions.{wake_all-states, wake_all-queue}

-- Each timer of the task is at the deadline.
abbrev IsAt : ℕ → ℕ → Pool → Type 0
IsAt when a = All (λ e. e.1 ≡ a → e.0 ≡ when)

has-IsAt : (when a : ℕ) (pool : Pool) → has pool a ≡ false → IsAt when a pool
unfolding has
has-IsAt when a [] h = tt
has-IsAt when a ((w, t) ∷ pool) h =
    ((λ e. absurd (ground (arith, h, e))), has-IsAt when a pool (ground (arith, h)))

insert-IsAt : (when a : ℕ) (pool : Pool) → IsAt when a pool → IsAt when a (Timer.insert when a pool)
unfolding Timer.insert
insert-IsAt when a [] h = ((λ e. refl), tt)
insert-IsAt when a ((w, t) ∷ pool) h = elim (Bool-cases (ltb when w)) [
  | inl before ↦ rw before ((λ e. refl), h)
  | inr not_before ↦ rw not_before (elim (Bool-cases (ltb w when)) [
    | inl after ↦ rw after (h.0, insert-IsAt when a pool h.1)
    | inr same ↦ rw same h
  ])
]

IsAt-append : (when a : ℕ) (xs ys : Pool) → IsAt when a (xs ++ ys) → IsAt when a xs × IsAt when a ys
IsAt-append when a [] ys h = (tt, h)
IsAt-append when a (e ∷ xs) ys h = let (hx, hy) = IsAt-append when a xs ys h.1 in ((h.0, hx), hy)

has-append : (xs ys : Pool) (a : ℕ) → has (xs ++ ys) a ≡ (has xs a || has ys a)
unfolding has
has-append [] ys a = refl
has-append ((w, t) ∷ xs) ys a = ground (arith, has-append xs ys a)

contains-map : (xs : Pool) (a : ℕ) → contains (map (λ e. e.1) xs) a ≡ has xs a
unfolding contains has
contains-map [] a = refl
contains-map ((w, t) ∷ xs) a = ground (arith, contains-map xs a)

-- None of the timers is the task's if they are all due and its deadline is later, or the other way round.
has_early :
    (when now a : ℕ) (xs : Pool) → IsAt when a xs → Due now xs → now < when → has xs a ≡ false
unfolding has
has_early when now a [] h d l = refl
has_early when now a ((w, t) ∷ xs) h d l =
    ground (arith, has_early when now a xs h.1 d.1 l, h.0, d.0, l)

has_late :
    (when now a : ℕ) (xs : Pool)
    → IsAt when a xs
    → All (λ e. now < e.0) xs
    → when ≤ now
    → has xs a ≡ false
unfolding has
has_late when now a [] h d l = refl
has_late when now a ((w, t) ∷ xs) h d l =
    ground (arith, has_late when now a xs h.1 d.1 l, h.0, d.0, l)

-- A task whose only timer is at the deadline is woken exactly when this is due.
woken_at :
    (when now a : ℕ) (pool : Pool)
    → IsOrdered pool
    → IsAt when a pool
    → has pool a ≡ true
    → contains (get_delay now pool).woken a ≡ leb when now
woken_at when now a pool ordered at h =
    let d = get_delay-TakesDue now pool ordered in
    let left = (get_delay now pool).left in
    let parts = IsAt-append when a d.due left (subst (IsAt when a) d.splits at) in
    let split : (has d.due a || has left a) ≡ true =
      sym (has-append d.due left a) ∙ ap (λ p. has p a) (sym d.splits) ∙ h in
    let woken : contains (get_delay now pool).woken a ≡ has d.due a =
      ap (λ ts. contains ts a) d.wakes ∙ contains-map d.due a in
    elim (Bool-cases (leb when now)) [
      | inl due ↦
          let le : when ≤ now = ground (arith, due) in
          ground (arith, due, split, woken, has_late when now a left parts.1 d.none_left_due le)
      | inr later ↦
          let lt : now < when = ground (arith, later) in
          ground (arith, later, woken, has_early when now a d.due parts.0 d.all_due lt)
    ]

-- A task that sleeps from `now` for `delay`, and has no other timer, at a deadline that no other timer has: when
-- the timers are polled at a time before the deadline, it goes on waiting and is not put into the queue, and
-- when they are polled at the deadline or later, it is put into the queue and does not wait any more.
pub poll_timers-sleeps :
    (a now delay later : ℕ) (r : Reactor)
    → IsOrdered r.timers
    → IsFree (now + delay) r.timers
    → has r.timers a ≡ false
    → contains r.queue a ≡ false
    → (contains (poll_timers later (perform a (sleeps now delay) r)).0.queue a
        ≡ leb (now + delay) later)
      × (is_waiting ((poll_timers later (perform a (sleeps now delay) r)).0.states a)
          ≡ not (leb (now + delay) later))
unfolding poll_timers perform update is_waiting Timer.add
poll_timers-sleeps a now delay later r ordered free h q =
    let pool = Timer.add now delay a r.timers in
    let started : has pool a ≡ true = ground (arith, has-add now delay a r.timers a free) in
    let at : IsAt (now + delay) a pool =
      insert-IsAt (now + delay) a r.timers (has-IsAt (now + delay) a r.timers h) in
    let woken =
      woken_at (now + delay) later a pool (add-IsOrdered now delay a r.timers ordered) at started in
    let woken_tasks = (get_delay later pool).woken in
    (
      ground (arith, wake_all-queue woken_tasks a (perform a (sleeps now delay) r), woken, q),
      ground (arith, wake_all-states woken_tasks a (perform a (sleeps now delay) r), woken),
    )
