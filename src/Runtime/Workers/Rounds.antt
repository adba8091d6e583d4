-- ===== src/Runtime/Workers/Rounds.antt =====
-- Several workers: due timers, events and rounds of `process_tasks` for a worker that goes on by itself.
use cppio.Runtime.Timer
use cppio.Runtime.Timer.{Pool}
use cppio.Runtime.Reactor.Tracking.{popped}
use cppio.Common.{
  ℕ, ◌≡◌, ◌∙◌, refl, subst, true, List, [], ◌∷◌, if◌then◌else◌, Bool-cases, ap, inl, inr,
}
use cppio.Runtime.Sets.{contains}
use cppio.Runtime.Reactor
use cppio.Runtime.Reactor.{
  ScheduleType, done, run, wait, Reactor, is_waiting, Action, sleeps, awaits, perform, perform_all,
  one_step, process_task, settle, wake, wake_all, poll_timers, schedule, complete,
}
use cppio.Runtime.Workers.{
  System, Body, goes, Step, pop, outside, here, rousing, expire, schedules, wakes, polls, report,
  reports,
}
use cppio.Runtime.Workers.Alone.{
  expand, accessed, access_all-expand, Alone, then_goes, accesses-Alone, takes-Alone, skips-Alone,
  enters-Alone, leaves-Alone, rousing-Alone,
}

wake_all-timers :
    (ts : List ℕ) (left : Pool) (r : Reactor)
    → wake_all ts (record r { timers = left }) ≡ record (wake_all ts r) { timers = left }
unfolding wake_all wake
wake_all-timers [] left r = refl
wake_all-timers (t ∷ ts) left r = wake_all-timers ts left (wake t r)

poll_timers-Alone :
    (body : Body) (worker now : ℕ) (s : System)
    → s.places worker ≡ outside
    → Alone body worker s (poll_timers now s.reactor).0 outside
unfolding poll_timers expire
poll_timers-Alone body worker now s p =
    let d = Timer.get_delay now s.reactor.timers in
    subst (λ x. Alone body worker s x outside) (wake_all-timers d.woken d.left s.reactor)
      (rousing-Alone body worker s d.woken (record s.reactor { timers = d.left })
        (then_goes body worker s {r = s.reactor} {from = outside}
          (record s.reactor { timers = d.left }) (rousing d.woken)
          (λ u e o.
            subst
              (λ x.
                Step body worker u
                  (goes worker (expire now x) (rousing (Timer.get_delay now x.timers).woken) u))
              e (polls now o))
          (s, here, refl, p, (λ other n. refl))))

complete-Alone :
    (body : Body) (worker t : ℕ) (s : System)
    → s.places worker ≡ outside
    → contains s.reactor.interest t ≡ true
    → Alone body worker s (complete t s.reactor) outside
unfolding complete wake schedule report
complete-Alone body worker t s p i =
    then_goes body worker s {r = report t s.reactor} {from = wakes t []} (complete t s.reactor)
      outside
      (λ u e o.
        subst (λ x. Step body worker u (goes worker (schedule t x) outside u)) e (schedules t [] o))
      (then_goes body worker s {r = s.reactor} {from = outside} (report t s.reactor) (wakes t [])
        (λ u e o.
          subst (λ x. Step body worker u (goes worker (report t x) (wakes t []) u)) e
            (reports t o (ap (λ x. contains x.interest t) e ∙ i)))
        (s, here, refl, p, (λ other n. refl)))

process_task-Alone_round :
    (body : Reactor.Body) (worker t : ℕ) (rest : List ℕ) (s : System)
    → s.places worker ≡ outside
    → s.reactor.queue ≡ t ∷ rest
    → Alone (accessed body) worker s (process_task body t (popped rest s.reactor)) outside
unfolding process_task one_step pop
process_task-Alone_round body worker t rest s p q =
    let r = popped rest s.reactor in
    let acts = (body t r).0 in
    let taken = takes-Alone (accessed body) worker s t rest p q in
    elim (Bool-cases (is_waiting (r.states t))) [
      | inl waiting ↦
          rw waiting (unfold settle in skips-Alone (accessed body) worker s t r waiting taken)
      | inr runs ↦ rw runs (
          subst
            (λ x.
              Alone (accessed body) worker s
                (settle t (if (body t r).1 then done else x.states t) x) outside)
            (access_all-expand t acts r)
            (leaves-Alone (accessed body) worker s t (body t r).1 _ (
              accesses-Alone (accessed body) worker s t (expand acts) (body t r).1 r
                (enters-Alone (accessed body) worker s t r runs taken))))
    ]

-- The model with one worker is refined by the model with several: a worker that is between two tasks and goes on
-- alone, one access at a time, reaches the state that the model with one worker gives for the due timers, for an
-- event of a task that is registered, and for a round of `process_tasks` on the task at the front of the queue;
-- it is then between two tasks again, and no other worker has moved.
pub process_task-Alone :
    (body : Reactor.Body) (worker now t u : ℕ) (rest : List ℕ) (s : System)
    → s.places worker ≡ outside
    → contains s.reactor.interest u ≡ true
    → s.reactor.queue ≡ t ∷ rest
    → Alone (accessed body) worker s (poll_timers now s.reactor).0 outside
      × Alone (accessed body) worker s (complete u s.reactor) outside
      × Alone (accessed body) worker s (process_task body t (popped rest s.reactor)) outside
process_task-Alone body worker now t u rest s p i q = (
  poll_timers-Alone (accessed body) worker now s p,
  complete-Alone (accessed body) worker u s p i,
  process_task-Alone_round body worker t rest s p q,
)
