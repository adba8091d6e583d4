-- ===== src/Runtime/Task/Bodies.antt =====
-- basic_task.cpp with the reactor: the chain of the coroutines of a task as one body, as Runtime/Reactor takes it.
-- A coroutine is the actions that it does when it is resumed, and why `resume` then comes back.
use cppio.Common.{
  ℕ, ◌≡◌, refl, ap, ◌∙◌, sym, Bool, true, false, Bool-cases, inl, inr, List, [], ◌∷◌, ◌++◌,
  if◌then◌else◌,
}
use cppio.Runtime.Reactor.{
  ScheduleType, done, Reactor, is_waiting, Action, perform, perform_all, one_step, Body,
}
use cppio.Runtime.Task
use cppio.Runtime.Task.{Resumed, suspended, called, returned, link}

abbrev pub Script : Type 0
Script = ℕ → Reactor → List Action × Resumed

-- What the coroutines of task `t` do to the reactor.
abbrev pub resume : ℕ → Script → ℕ → Reactor → Resumed × Reactor
resume t script curr r = ((script curr r).1, perform_all t (script curr r).0 r)

-- The actions of the coroutines of a chain that one resumption of the task runs, and whether the last has returned.
unfoldable pub unwind : ℕ → Script → List ℕ → Reactor → List Action × Bool
unwind t script [] r = ([], true)
unwind t script (curr ∷ outer) r =
    let (acts, answer) = script curr r in
    let next = unwind t script outer (perform_all t acts r) in
    if is_waiting (r.states t) then ([], false) else elim answer [
      | suspended ↦ (acts, false)
      | called inner ↦ (acts, false)
      | returned ↦ (acts ++ next.0, next.1)
    ]

-- The chain of a task as its body.
abbrev pub body_of : Script → List ℕ → Body
body_of script chain t r = unwind t script chain r

perform_all-append :
    (t : ℕ) (xs ys : List Action) (r : Reactor)
    → perform_all t (xs ++ ys) r ≡ perform_all t ys (perform_all t xs r)
unfolding perform_all
perform_all-append t [] ys r = refl
perform_all-append t (x ∷ xs) ys r = perform_all-append t xs ys (perform t x r)

-- A resumption of a chain of coroutines is one of the reactor's model, whose body is the actions of the coroutines
-- that it runs: it leaves the same reactor and gives the same answer, whatever the coroutines do, how many of
-- them return, and whether one of them has made the task wait before it returns.
pub one_step-unwind :
    (t : ℕ) (script : Script) (chain : List ℕ) (r : Reactor)
    → let step = Task.one_step Reactor (λ u. u.states t) (resume t script) chain r in
      (step.1, step.2) ≡ one_step (body_of script chain) t r
unfolding Task.one_step one_step unwind perform_all link
one_step-unwind t script [] r = refl
one_step-unwind t script (curr ∷ outer) r = elim (Bool-cases (is_waiting (r.states t))) [
  | inl waits ↦ rw waits refl
  | inr runs ↦ rw runs (go (script curr r) (λ after. one_step-unwind t script outer after))
]
  where
    stepped : List Action × Resumed → List ℕ × Reactor × ScheduleType
    stepped x =
        let after = perform_all t x.0 r in
        elim x.1 [
          | suspended ↦ (curr ∷ outer, after, after.states t)
          | called inner ↦ (inner ∷ curr ∷ outer, after, after.states t)
          | returned ↦ Task.one_step Reactor (λ u. u.states t) (resume t script) outer after
        ]

    unwound : List Action × Resumed → List Action × Bool
    unwound x =
        let next = unwind t script outer (perform_all t x.0 r) in
        elim x.1 [
          | suspended ↦ (x.0, false)
          | called inner ↦ (x.0, false)
          | returned ↦ (x.0 ++ next.0, next.1)
        ]

    settled : List Action × Bool → Reactor × ScheduleType
    settled x = let after = perform_all t x.0 r in (after, if x.1 then done else after.states t)

    go :
        (x : List Action × Resumed)
        → ((after : Reactor)
            → let step = Task.one_step Reactor (λ u. u.states t) (resume t script) outer after in
              (step.1, step.2) ≡ one_step (body_of script outer) t after)
        → ((stepped x).1, (stepped x).2) ≡ settled (unwound x)
    go (acts, suspended) h = refl
    go (acts, called inner) h = refl
    go (acts, returned) h =
        h (perform_all t acts r)
        ∙ ap {A = Reactor}
            (λ after. (
              after,
              if (unwind t script outer (perform_all t acts r)).1 then done else after.states t,
            ))
            (sym (perform_all-append t acts (unwind t script outer (perform_all t acts r)).0 r))
