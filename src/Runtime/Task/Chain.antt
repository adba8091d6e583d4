-- ===== src/Runtime/Task/Chain.antt =====
-- basic_task.cpp: what `one_step` does to the chain of coroutines.
use cppio.Common.{
  ℕ, suc, ◌≡◌, ◌≢◌, ◌↔◌, refl, Bool-cases, inl, inr, ◌⊎◌, List, [], ◌∷◌, drop, arith,
}
use cppio.Runtime.Reactor.{ScheduleType, done, is_waiting, run, wait}
use cppio.Runtime.Task.{Resumed, suspended, called, returned, link, one_step}

module _ (W : Type 0) (state : W → ScheduleType) (resume : ℕ → W → Resumed × W) where
  -- The chain behind a step: what is left of the chain when some of the innermost coroutines have returned,
  -- with at most one coroutine more, which the innermost that is left has called.
  abbrev pub IsUnwound : List ℕ → List ℕ → Type 0
  IsUnwound chain left =
      (k : ℕ) × ((left ≡ drop k chain)
        ⊎ ((inner : ℕ) × (drop k chain ≢ []) × (left ≡ inner ∷ drop k chain)))

  -- A state of the task is never `kDone`, which only `one_step` answers.
  abbrev pub IsAlive : Type 0
  IsAlive = (w : W) → state w ≢ done

  step-IsUnwound : (chain : List ℕ) (w : W) → IsUnwound chain (one_step W state resume chain w).0
  unfolding one_step link
  step-IsUnwound [] w = (0, inl refl)
  step-IsUnwound (curr ∷ outer) w = elim (Bool-cases (is_waiting (state w))) [
    | inl waits ↦ rw waits (0, inl refl)
    | inr runs ↦ rw runs (go (resume curr w) (λ after. step-IsUnwound outer after))
  ]
    where
      out : Resumed × W → List ℕ × W × ScheduleType
      out r = elim r.0 [
        | suspended ↦ (curr ∷ outer, r.1, state r.1)
        | called inner ↦ (link W state resume inner (curr ∷ outer), r.1, state r.1)
        | returned ↦ one_step W state resume outer r.1
      ]

      go :
          (r : Resumed × W)
          → ((after : W) → IsUnwound outer (one_step W state resume outer after).0)
          → IsUnwound (curr ∷ outer) (out r).0
      go (suspended, after) h = (0, inl refl)
      go (called inner, after) h = (0, inr (inner, (λ e. cc e), refl))
      go (returned, after) h = let (k, u) = h after in (suc k, u)

  step_done :
      (chain : List ℕ) (w : W)
      → IsAlive
      → ((one_step W state resume chain w).2 ≡ done) ↔ ((one_step W state resume chain w).0 ≡ [])
  unfolding one_step link
  step_done [] w alive = ((λ e. refl), (λ e. refl))
  step_done (curr ∷ outer) w alive = elim (Bool-cases (is_waiting (state w))) [
    | inl waits ↦ rw waits ((λ e. absurd (alive w e)), (λ e. absurd (cc e)))
    | inr runs ↦ rw runs (go (resume curr w) (λ after. step_done outer after alive))
  ]
    where
      out : Resumed × W → List ℕ × W × ScheduleType
      out r = elim r.0 [
        | suspended ↦ (curr ∷ outer, r.1, state r.1)
        | called inner ↦ (link W state resume inner (curr ∷ outer), r.1, state r.1)
        | returned ↦ one_step W state resume outer r.1
      ]

      go :
          (r : Resumed × W)
          → ((after : W)
              → ((one_step W state resume outer after).2 ≡ done)
                ↔ ((one_step W state resume outer after).0 ≡ []))
          → ((out r).2 ≡ done) ↔ ((out r).0 ≡ [])
      go (suspended, after) h = ((λ e. absurd (alive after e)), (λ e. absurd (cc e)))
      go (called inner, after) h = ((λ e. absurd (alive after e)), (λ e. absurd (cc e)))
      go (returned, after) h = h after

module _ (W : Type 0) (state : W → ScheduleType) (resume : ℕ → W → Resumed × W) where
  -- A coroutine that returns while the task waits leaves the one that awaits it where it is.
  pub one_step_returned :
      (curr awaiting : ℕ) (outer : List ℕ) (w after : W)
      → state w ≡ run
      → resume curr w ≡ (returned, after)
      → state after ≡ wait
      → one_step W state resume (curr ∷ awaiting ∷ outer) w ≡ (awaiting ∷ outer, after, wait)
  unfolding one_step is_waiting
  one_step_returned curr awaiting outer w after runs e waits = ground (arith, runs, e, waits)

-- `one_step` lets the innermost coroutines return, as many as do, and leaves those around them as they were,
-- with at most one coroutine that the last has called; it answers `kDone` exactly when none is left, if no state
-- of the task is `kDone`.
one_step-IsUnwound :
    (W : Type 0) (state : W → ScheduleType) (resume : ℕ → W → Resumed × W) (chain : List ℕ) (w : W)
    → IsAlive W state resume
    → IsUnwound W state resume chain (one_step W state resume chain w).0
      × (((one_step W state resume chain w).2 ≡ done) ↔ ((one_step W state resume chain w).0 ≡ []))
one_step-IsUnwound W state resume chain w alive =
    (step-IsUnwound W state resume chain w, step_done W state resume chain w alive)
