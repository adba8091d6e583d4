-- ===== src/Runtime/Task/Handle.antt =====
-- cppio/task.hpp: the handle of a coroutine, which a task object owns. The state is the list of the coroutine
-- frames that are alive; whether a frame has returned is an argument.
use cppio.Common.{ℕ, Bool, true, List, ◌∷◌, Option, none, some, ◌≡◌, false, arith, refl}
use cppio.Runtime.Sets.{erase, contains, erase_opened}

-- `m_handle`; `none` is the null handle.
pub record Task : Type 0 where
  pub handle : Option ℕ

-- `get_return_object`: a new frame and the task that owns it.
unfoldable pub get_return_object : ℕ → List ℕ → Task × List ℕ
get_return_object frame frames = (record { handle = some frame }, frame ∷ frames)

-- The move constructor: the new task, and what is left of the old one.
unfoldable pub move : Task → Task × Task
move other = (other, record { handle = none })

-- The destructor.
unfoldable pub destroy : Task → List ℕ → List ℕ
destroy task frames = elim task.handle [ none ↦ frames | some frame ↦ erase frame frames ]

unfoldable pub await_ready : (ℕ → Bool) → Task → Bool
await_ready done task = elim task.handle [ none ↦ true | some frame ↦ done frame ]

-- `abstract_reactor::spawn` on a task that is given by value: it is moved into the shared task, whose frame the
-- reactor runs, and the parameter is destroyed when the call returns.
unfoldable pub spawn : Task → List ℕ → Task × List ℕ
spawn a_task frames = let (p_task, left) = move a_task in (p_task, destroy left frames)

-- A task that is spawned keeps its frame: the parameter that is destroyed when `spawn` returns owns none, and the
-- frame is destroyed once, with the shared task that it was moved into.
destroy-spawn :
    (frame : ℕ) (frames : List ℕ)
    → contains frames frame ≡ false
    → let (a_task, alive) = get_return_object frame frames in
      let (p_task, after) = spawn a_task alive in
      (contains after frame ≡ true) × (after ≡ frame ∷ frames) × (destroy p_task after ≡ frames)
unfolding get_return_object spawn move destroy contains
destroy-spawn frame frames h = (ground arith, refl, erase_opened frame frames h)
