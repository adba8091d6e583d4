-- ===== src/Runtime/Workers/Races.antt =====
-- Two workers: the two orders of `wait` and the registration. posix/tcp_listener.cpp and the `connect` of
-- posix/tcp_socket.cpp register first; the reads and writes wait first.
use cppio.Common.{ℕ, ◌≡◌, refl, Bool, true, false, List, [], ◌∷◌, arith, subst}
use cppio.Runtime.Sets.{contains, update, insert}
use cppio.Runtime.Sets
use cppio.Runtime.Reactor.{
  ScheduleType, run, wait, Reactor, is_waiting, add_for_read, task_wait, schedule, settle,
}
use cppio.Runtime.Workers.{
  Access, waits, registers, access, outside, resumes, answers, System, Body, goes, pop, report,
  Step, takes, skips, enters, accesses, leaves, settles, reports, schedules, Reach, here, next,
}

-- Task `t` is alone in the queue and runs, nothing is registered, and every worker is between two tasks.
abbrev pub ready : ℕ → Reactor → System
ready t r = record {
  reactor = record r { queue = t ∷ []; interest = []; states = update r.states t run };
  places = (λ worker. outside);
}

-- The task waits, nothing will resume it, and no worker has it in its hands.
abbrev pub IsStranded : ℕ → System → Type 0
IsStranded t s =
    (s.reactor.queue ≡ [])
    × (s.reactor.interest ≡ [])
    × (is_waiting (s.reactor.states t) ≡ true)
    × (s.places 0 ≡ outside)
    × (s.places 1 ≡ outside)

inserted : (t : ℕ) → contains (insert t []) t ≡ true
unfolding contains insert
inserted t = ground arith

-- The worker leaves a coroutine that has not returned.
leaves_with :
    {body : Body} {t worker : ℕ} {s : System} (state : ScheduleType)
    → s.places worker ≡ resumes t [] false
    → s.reactor.states t ≡ state
    → Step body worker s (goes worker s.reactor (answers t state) s)
leaves_with {body} {t} {worker} {s} state e h =
    subst (λ x. Step body worker s (goes worker s.reactor (answers t x) s)) h (leaves t false e)

-- A coroutine that registers its descriptor and then waits, as `accept` and `connect` do, may lose its wake-up
-- where there are two workers: if its task is alone in the queue, a state can be reached in which it waits and is
-- neither in the queue nor registered, with both workers between two tasks. The second worker takes the event and
-- puts the task into the queue before the first makes it wait, and then drops it as one that waits.
pub registers_first-IsStranded :
    (t : ℕ) (r : Reactor) (body : Body)
    → ((s : Reactor) → body t s ≡ (registers true ∷ waits ∷ [], false))
    → (s : System) × Reach body (ready t r) s × IsStranded t s
unfolding goes update pop report access add_for_read task_wait schedule settle Sets.erase insert
    contains is_waiting
registers_first-IsStranded t r body e =
    let begun =
      next 0
        (next 0 (next 0 here (takes t [] refl refl)) (enters t _ false refl (ground arith) (e _)))
        (accesses t (registers true) (waits ∷ []) false refl) in
    let woken = next 1 (next 1 begun (reports t refl (inserted t))) (schedules t [] refl) in
    let waited = next 0 woken (accesses t waits [] false refl) in
    let skipped = next 1 (next 1 waited (takes t [] refl refl)) (skips t refl (ground arith)) in
    (
      _,
      next 0 (next 0 skipped (leaves_with wait refl (ground arith))) (settles t wait refl),
      (refl, ground arith, ground arith, refl, refl),
    )

-- The worker is inside the coroutine of the task.
abbrev pub IsInside : ℕ → ℕ → System → Type 0
IsInside t worker s =
    (rest : List Access) × (returned : Bool) × (s.places worker ≡ resumes t rest returned)

-- A coroutine that waits and then registers its descriptor, as reads and writes do on POSIX, may be entered by a
-- second worker while the first is still inside it: if its task is alone in the queue, a state can be reached in
-- which both are inside. The event comes before the first worker has suspended the coroutine.
pub waits_first-IsInside :
    (t : ℕ) (r : Reactor) (body : Body)
    → ((s : Reactor) → body t s ≡ (waits ∷ registers true ∷ [], false))
    → (s : System) × Reach body (ready t r) s × IsInside t 0 s × IsInside t 1 s
unfolding goes update pop report access add_for_read task_wait schedule is_waiting
waits_first-IsInside t r body e =
    let begun =
      next 0 (next 0 here (takes t [] refl refl)) (enters t _ false refl (ground arith) (e _)) in
    let registered =
      next 0 (next 0 begun (accesses t waits (registers true ∷ []) false refl))
        (accesses t (registers true) [] false refl) in
    let woken = next 1 (next 1 registered (reports t refl (inserted t))) (schedules t [] refl) in
    let inside =
      next 1 (next 1 woken (takes t [] refl refl)) (enters t _ false refl (ground arith) (e _)) in
    (_, inside, (_, _, refl), (_, _, refl))
