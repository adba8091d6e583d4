-- ===== src/Runtime/Task/Frames/Steps.antt =====
-- basic_task.cpp: the loops of `one_step` do what its model does with the chain that the pointers stand for.
use cppio.Runtime.Task
use cppio.Runtime.Task.{Resumed, called, suspended, returned}
use cppio.Runtime.Reactor.{ScheduleType, done, is_waiting}
use cppio.Common.{
  ℕ, false, none, some, List, [], ◌∷◌, refl, length, Option, arith, inl, ◌≡◌, ◌⊎◌, inr, ap, subst,
  sym, Bool-cases,
}
use cppio.Runtime.Sets.{contains, update}
use cppio.Runtime.Task.Frames.{
  Frames, await_suspend, final_suspend, clear_inner, resume_from, step_frames,
}
use cppio.Runtime.Task.Frames.Linked.{
  IsLinked, Represents, IsNew, base, descend_innermost, returned-Represents, called-Represents,
}

module _ (W : Type 0) (state : W → ScheduleType) (resume : ℕ → W → Resumed × W) where
  -- A coroutine that is resumed awaits none but new ones.
  abbrev pub CallsNew : Frames → List ℕ → Type 0
  CallsNew f chain =
      (curr i : ℕ) (w after : W) → resume curr w ≡ (called i, after) → IsNew i chain f

  -- The pointers behind a step and its answer are those of the model.
  abbrev pub Agrees : Frames × W × ScheduleType → List ℕ × W × ScheduleType → Type 0
  Agrees x y = (x.1 ≡ y.1) × (x.2 ≡ y.2) × (((y.0 ≡ []) × (y.2 ≡ done)) ⊎ Represents x.0 y.0)

  CallsNew-returned :
      (a b : ℕ) (xs : List ℕ) (f : Frames)
      → CallsNew f (a ∷ b ∷ xs)
      → CallsNew (clear_inner b (final_suspend a f)) (b ∷ xs)
  unfolding contains clear_inner final_suspend update
  CallsNew-returned a b xs f h curr i w after e =
      let (out, unfinished, alone) = h curr i w after e in
      (ground (arith, out), ground (arith, out, unfinished), ground (arith, out, alone))

  IsLinked-unfinished :
      (x : ℕ) (xs : List ℕ) (f : Frames) → IsLinked f (x ∷ xs) → f.finished x ≡ false
  IsLinked-unfinished x [] f h = h.0
  IsLinked-unfinished x (y ∷ xs) f h = h.0

  -- The coroutine that awaits the first of the chain.
  abbrev awaiting : List ℕ → Option ℕ
  awaiting [] = none
  awaiting (y ∷ xs) = some y

  IsLinked-outer :
      (x : ℕ) (xs : List ℕ) (f : Frames) → IsLinked f (x ∷ xs) → f.outer x ≡ awaiting xs
  IsLinked-outer x [] f h = h.1
  IsLinked-outer x (y ∷ xs) f h = h.1

  -- What is left when the innermost coroutine has returned.
  abbrev Rest : ℕ → List ℕ → Frames → W → Type 0
  Rest x ys f after =
      Agrees
        (elim (awaiting ys) [
          | none ↦ (final_suspend x f, after, done)
          | some y ↦
              resume_from W state resume (length ys) (clear_inner y (final_suspend x f)) y after
        ])
        (Task.one_step W state resume ys after)

  Rest-Agrees :
      (x : ℕ) (xs : List ℕ) (f : Frames) (w : W)
      → Represents f (x ∷ xs)
      → CallsNew f (x ∷ xs)
      → Rest x xs f (resume x w).1
      → Agrees
          (resume_from W state resume (length (x ∷ xs)) f x w)
          (Task.one_step W state resume (x ∷ xs) w)
  unfolding resume_from Task.one_step Task.link
  Rest-Agrees x xs f w h new r =
      let unfinished = IsLinked-unfinished x xs f h.1 in
      elim (Bool-cases (is_waiting (state w))) [
        | inl waits ↦ rw (unfinished, waits) (refl, refl, inr h)
        | inr runs ↦
            rw (unfinished, runs) (go (resume x w).0 (f.outer x) refl (IsLinked-outer x xs f h.1))
      ]
    where
      after : W
      after = (resume x w).1

      stepped : Resumed → Option ℕ → Frames × W × ScheduleType
      stepped answer outer = elim answer [
        | suspended ↦ (f, after, state after)
        | called i ↦ (await_suspend x i f, after, state after)
        | returned ↦ elim outer [
          | none ↦ (final_suspend x f, after, done)
          | some y ↦
              resume_from W state resume (length xs) (clear_inner y (final_suspend x f)) y after
        ]
      ]

      modelled : Resumed → List ℕ × W × ScheduleType
      modelled answer = elim answer [
        | suspended ↦ (x ∷ xs, after, state after)
        | called i ↦ (i ∷ x ∷ xs, after, state after)
        | returned ↦ Task.one_step W state resume xs after
      ]

      go :
          (answer : Resumed) (outer : Option ℕ)
          → (resume x w).0 ≡ answer
          → outer ≡ awaiting xs
          → Agrees (stepped answer outer) (modelled answer)
      go suspended outer e o = (refl, refl, inr h)
      go (called i) outer e o = (
        refl,
        refl,
        inr (called-Represents x i xs f (new x i w after (ap (λ a. (a, after)) e)) h),
      )
      go returned outer e o = subst (λ y. Agrees (stepped returned y) (modelled returned)) (sym o) r

  resume_from-one_step :
      (x : ℕ) (xs : List ℕ) (f : Frames) (w : W)
      → Represents f (x ∷ xs)
      → CallsNew f (x ∷ xs)
      → Agrees
          (resume_from W state resume (length (x ∷ xs)) f x w)
          (Task.one_step W state resume (x ∷ xs) w)
  resume_from-one_step x [] f w h new =
      Rest-Agrees x [] f w h new (unfold Task.one_step in (refl, refl, inl (refl, refl)))
  resume_from-one_step x (y ∷ ys) f w h new = Rest-Agrees x (y ∷ ys) f w h new (
      resume_from-one_step y ys (clear_inner y (final_suspend x f)) (resume x w).1
        (returned-Represents x y ys f h) (CallsNew-returned x y ys f new))

-- Where the pointers of the promises stand for the chain of a task, and its coroutines await none but new ones,
-- `one_step` follows them to the innermost coroutine, from the task's own, within as many rounds as the chain is long,
-- and does what the model does with the chain: it leaves the same state and gives the same answer, and the pointers
-- stand for the chain that the model leaves, or the task has returned.
pub step_frames-Agrees :
    (W : Type 0) (state : W → ScheduleType) (resume : ℕ → W → Resumed × W) (x : ℕ) (xs : List ℕ)
    (f : Frames) (w : W)
    → Represents f (x ∷ xs)
    → CallsNew W state resume f (x ∷ xs)
    → Agrees W state resume
        (step_frames W state resume (length (x ∷ xs)) f (base x xs) w)
        (Task.one_step W state resume (x ∷ xs) w)
unfolding step_frames
step_frames-Agrees W state resume x xs f w h new =
    rw (descend_innermost x xs f h.1 h.2) (resume_from-one_step W state resume x xs f w h new)
