-- ===== src/Runtime/Task.antt =====
-- cppio/basic_task.cpp and task.hpp: the chain of the coroutines of a task. A coroutine that awaits a task
-- links to that task's coroutine, its inner one (`m_inner_handle`, `m_outer_handle`); the chain is a list of
-- them, the innermost first. What a coroutine does between two suspensions is a parameter, over a state of the
-- world that has the task's `m_state`.
pub mod Chain
pub mod Handle
pub mod Promise
pub mod Futures
pub mod Bodies
pub mod Frames
use cppio.Common.{ℕ, Bool, true, false, List, [], ◌∷◌, if◌then◌else◌}
use cppio.Runtime.Reactor.{ScheduleType, done, is_waiting}

-- Why `resume` comes back: the coroutine has suspended, it awaits a task, whose coroutine is then linked to it,
-- or it has returned.
pub data Resumed : Type 0 where
  suspended : Resumed
  called : (inner : ℕ) → Resumed
  returned : Resumed

module _ (W : Type 0) (state : W → ScheduleType) (resume : ℕ → W → Resumed × W) where
  -- `task::await_suspend`: the links between the two coroutines.
  unfoldable pub link : ℕ → List ℕ → List ℕ
  link inner chain = inner ∷ chain

  -- `basic_task::one_step`: the innermost coroutine is resumed, and those around it as long as each returns and
  -- the task does not wait. The chain of a task that has returned is empty.
  unfoldable pub one_step : List ℕ → W → List ℕ × W × ScheduleType
  one_step [] w = ([], w, done)
  one_step (curr ∷ outer) w =
      let (answer, after) = resume curr w in
      let next = one_step outer after in
      if is_waiting (state w) then (curr ∷ outer, w, state w) else elim answer [
        | suspended ↦ (curr ∷ outer, after, state after)
        | called inner ↦ (link inner (curr ∷ outer), after, state after)
        | returned ↦ next
      ]
