-- ===== src/Runtime/Task/Frames.antt =====
-- cppio/basic_task.{hpp,cpp} and task.hpp: the links between the coroutines of a task, as the pointers that their
-- promises keep, and `one_step` as the loops that follow them.
use cppio.Runtime.Sets.{update}
pub mod Linked
pub mod Steps
use cppio.Common.{ℕ, zero, suc, Bool, true, Option, none, some, if◌then◌else◌}
use cppio.Runtime.Reactor.{ScheduleType, done, is_waiting}
use cppio.Runtime.Task.{Resumed, suspended, called, returned}

-- `m_inner_handle` and `m_outer_handle` of each coroutine's promise, and whether the coroutine has come to its final
-- suspension.
pub record Frames : Type 0 where
  pub inner : ℕ → Option ℕ
  pub outer : ℕ → Option ℕ
  pub finished : ℕ → Bool

-- `task::await_suspend`, for a coroutine that awaits the task of another.
unfoldable pub await_suspend : ℕ → ℕ → Frames → Frames
await_suspend handle m_handle f = record f {
  inner = update f.inner handle (some m_handle);
  outer = update f.outer m_handle (some handle);
}

-- A coroutine returns: `final_suspend` keeps its frame.
unfoldable pub final_suspend : ℕ → Frames → Frames
final_suspend curr f = record f { finished = update f.finished curr true }

-- `curr.promise().m_inner_handle = nullptr`
unfoldable pub clear_inner : ℕ → Frames → Frames
clear_inner curr f = record f { inner = update f.inner curr none }

-- The outer loop: from a coroutine to the innermost. The fuel bounds the depth.
unfoldable pub descend : ℕ → Frames → ℕ → ℕ
descend zero f curr = curr
descend (suc fuel) f curr = elim (f.inner curr) [ none ↦ curr | some next ↦ descend fuel f next ]

module _ (W : Type 0) (state : W → ScheduleType) (resume : ℕ → W → Resumed × W) where
  -- The inner loop: the coroutine is resumed, and those around it as long as each returns.
  unfoldable pub resume_from : ℕ → Frames → ℕ → W → Frames × W × ScheduleType
  resume_from zero f curr w = (f, w, state w)
  resume_from (suc fuel) f curr w =
      let (answer, after) = resume curr w in
      let left = final_suspend curr f in
      if f.finished curr
      then (f, w, done)
      else if is_waiting (state w)
      then (f, w, state w)
      else elim answer [
        | suspended ↦ (f, after, state after)
        | called m_handle ↦ (await_suspend curr m_handle f, after, state after)
        | returned ↦ elim (f.outer curr) [
          | none ↦ (left, after, done)
          | some outer ↦ resume_from fuel (clear_inner outer left) outer after
        ]
      ]

  -- `basic_task::one_step` of the task whose own coroutine is `base`.
  unfoldable pub step_frames : ℕ → Frames → ℕ → W → Frames × W × ScheduleType
  step_frames fuel f base w = resume_from fuel f (descend fuel f base) w
